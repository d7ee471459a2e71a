-- ===== src/Jaguar/Valid.antt =====
-- The well-formedness of the simulator.
use native.Mathlib.Decide.{ℕ_discrete}
use ig_cachesim.Common.{
  ℕ, zero, suc, ◌+◌, ◌-◌, ◌≤◌, ◌<◌, ◌≡◌, refl, ◌∙◌, List, arith, ◌==◌, get_or, set, length,
  replicate, length-set, get_or-set_self, get_or-set_ne, get_or-replicate_lt, Bool-cases, inl, inr,
}
use ig_cachesim.Cache
use ig_cachesim.Cache.{Cache, Geometry}
use ig_cachesim.Cache.Valid.{IsGeometry, IsValid, init-IsValid, access-IsValid, invalidate-IsValid}
use ig_cachesim.Jaguar.{
  AccessMode, is_code_read, jaguar_d1, jaguar_i1, jaguar_l2, core_count, JaguarModule,
  JaguarCacheSim, init_module, init, no_cache, module_at, set_module, kick_core, kick_cores,
  access_l1, look_up,
}

abbrev pub d1_geometry : IsGeometry jaguar_d1
d1_geometry = record { bits = 6; sets_pow = refl; index_fits = omega arith; some_way = omega arith }

abbrev pub i1_geometry : IsGeometry jaguar_i1
i1_geometry = record { bits = 8; sets_pow = refl; index_fits = omega arith; some_way = omega arith }

abbrev pub l2_geometry : IsGeometry jaguar_l2
l2_geometry = record {
  bits = 11;
  sets_pow = refl;
  index_fits = omega arith;
  some_way = omega arith;
}

-- One well-formed cache for each core.
pub record AreCaches (g : Geometry) (cs : List Cache) : Type 0 where
  pub count : length cs ≡ 4
  pub each : (i : ℕ) → i < 4 → IsValid g (get_or cs i no_cache)

pub record IsModule (m : JaguarModule) : Type 0 where
  pub d1 : AreCaches jaguar_d1 m.core_d1
  pub i1 : AreCaches jaguar_i1 m.core_i1
  pub l2 : IsValid jaguar_l2 m.level2

-- Two well-formed modules that point at each other.
pub record IsSim (sim : JaguarCacheSim) : Type 0 where
  pub count : length sim.modules ≡ 2
  pub each : (i : ℕ) → i < 2 → IsModule (module_at sim i)
  pub other : (i : ℕ) → i < 2 → (module_at sim i).other_module ≡ 1 - i

module _ {g : Geometry} where
  pub set-AreCaches :
      {cs : List Cache} (i : ℕ) (c : Cache)
      → AreCaches g cs
      → IsValid g c
      → AreCaches g (set cs i c)
  set-AreCaches {cs} i c v good = record {
    count = length-set cs i c ∙ v.count;
    each = λ j h. elim (ℕ_discrete i j) [
      | yes e ↦ rw (← e, get_or-set_self cs i c no_cache (omega (arith, v.count))) good
      | no n ↦ rw (get_or-set_ne cs i j c no_cache n) (v.each j h)
    ];
  }

  replicate-AreCaches : IsGeometry g → AreCaches g (replicate core_count (Cache.init g))
  replicate-AreCaches geo = record {
    count = refl;
    each = λ i h. rw (get_or-replicate_lt 4 i (Cache.init g) no_cache h) (init-IsValid geo);
  }

pub set_module-IsSim :
    {sim : JaguarCacheSim} (i : ℕ) (m : JaguarModule)
    → IsSim sim
    → i < 2
    → IsModule m
    → m.other_module ≡ 1 - i
    → IsSim (set_module sim i m)
set_module-IsSim {sim} i m v lt good o = record {
  count = length-set sim.modules i m ∙ v.count;
  each = λ j h. elim (ℕ_discrete i j) [
    | yes e ↦ rw (← e, get_or-set_self sim.modules i m _ (omega (arith, v.count))) good
    | no n ↦ rw (get_or-set_ne sim.modules i j m _ n) (v.each j h)
  ];
  other = λ j h. elim (ℕ_discrete i j) [
    | yes e ↦ rw (← e, get_or-set_self sim.modules i m _ (omega (arith, v.count))) o
    | no n ↦ rw (get_or-set_ne sim.modules i j m _ n) (v.other j h)
  ];
}

init_module-IsModule : (other : ℕ) → IsModule (init_module other)
unfolding init_module
init_module-IsModule other = record {
  d1 = replicate-AreCaches d1_geometry;
  i1 = replicate-AreCaches i1_geometry;
  l2 = init-IsValid l2_geometry;
}

-- `Init` builds a well-formed simulator.
pub init-IsSim : IsSim init
unfolding init init_module
init-IsSim = record { count = refl; each = modules; other = others }
  where
    modules : (i : ℕ) → i < 2 → IsModule (module_at init i)
    modules zero h = init_module-IsModule 1
    modules (suc zero) h = init_module-IsModule 0
    modules (suc (suc i)) h = absurd (omega arith)

    others : (i : ℕ) → i < 2 → (module_at init i).other_module ≡ 1 - i
    others zero h = refl
    others (suc zero) h = refl
    others (suc (suc i)) h = absurd (omega arith)

pub kick_core-IsModule :
    (i core addr : ℕ) {m : JaguarModule} → i < 4 → IsModule m → IsModule (kick_core i core addr m)
unfolding kick_core
kick_core-IsModule i core addr {m} h v = elim (Bool-cases (i == core)) [
  | inl e ↦ rw e v
  | inr e ↦ rw e (record {
    d1 = set-AreCaches i _ v.d1 (invalidate-IsValid d1_geometry addr (v.d1.each i h));
    i1 = set-AreCaches i _ v.i1 (invalidate-IsValid i1_geometry addr (v.i1.each i h));
    l2 = v.l2;
  })
]

other-kick_core :
    (i core addr : ℕ) (m : JaguarModule) → (kick_core i core addr m).other_module ≡ m.other_module
unfolding kick_core
other-kick_core i core addr m = ground arith

pub kick_cores-IsModule :
    (n i core addr : ℕ) {m : JaguarModule}
    → i + n ≤ 4
    → IsModule m
    → IsModule (kick_cores n i core addr m)
      × ((kick_cores n i core addr m).other_module ≡ m.other_module)
unfolding kick_cores
kick_cores-IsModule zero i core addr h v = (v, refl)
kick_cores-IsModule (suc n) i core addr {m} h v =
    let r =
      kick_cores-IsModule n (suc i) core addr (omega arith)
        (kick_core-IsModule i core addr (omega arith) v) in
    (r.0, r.1 ∙ other-kick_core i core addr m)

pub look_up-IsModule :
    (core addr : ℕ) (mode : AccessMode) {m : JaguarModule}
    → core < 4
    → IsModule m
    → IsModule (look_up m core addr mode).1
      × ((look_up m core addr mode).1.other_module ≡ m.other_module)
unfolding look_up access_l1
look_up-IsModule core addr mode {m} h v = elim (Bool-cases (is_code_read mode)) [
  | inl e ↦ rw e (
      (
        record {
          d1 = v.d1;
          i1 = set-AreCaches core _ v.i1 (access-IsValid i1_geometry addr (v.i1.each core h));
          l2 = access-IsValid l2_geometry addr v.l2;
        },
        refl,
      ))
  | inr e ↦ rw e (
      (
        record {
          d1 = set-AreCaches core _ v.d1 (access-IsValid d1_geometry addr (v.d1.each core h));
          i1 = v.i1;
          l2 = access-IsValid l2_geometry addr v.l2;
        },
        refl,
      ))
]
