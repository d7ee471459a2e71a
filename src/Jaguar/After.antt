-- ===== src/Jaguar/After.antt =====
-- The effect of one access to a module, in terms of the lines that the caches hold.
use ig_cachesim.Common.{
  ℕ, ◌-◌, ◌<◌, ◌≡◌, ◌≢◌, refl, ◌∙◌, Bool, true, false, arith, if◌then◌else◌, get_or-set_self,
  get_or-set_ne, Bool-cases, inl, inr, sym,
}
use ig_cachesim.Cache
use ig_cachesim.Cache.{line_of}
use ig_cachesim.Cache.Residency.{holds, access-holds}
use ig_cachesim.Jaguar.{
  AccessMode, write, is_write, is_code_read, AccessResult, jaguar_d1, jaguar_i1, jaguar_l2,
  JaguarModule, JaguarCacheSim, no_cache, module_at, set_module, before_write, classify, access_l1,
  look_up, access_module,
}
use ig_cachesim.Jaguar.Valid.{IsModule, IsSim, d1_geometry, i1_geometry, l2_geometry}
use ig_cachesim.Jaguar.Step.{
  module_at-set_self, module_at-set_ne, BeforeWrite, before_write-BeforeWrite, look_up-IsSim,
}
use ig_cachesim.Jaguar.Kick.{
  d1_of, i1_of, Same, Kicked, kick_cores-Same, kick_cores-Kicked, level2-kick_cores,
}

abbrev pub holds_l2 : JaguarModule → ℕ → Bool
holds_l2 m addr = holds jaguar_l2 m.level2 addr

-- The L1 cache that an access of this mode by this core goes to holds the line.
abbrev pub holds_l1 : JaguarModule → ℕ → AccessMode → ℕ → Bool
holds_l1 m core mode addr =
    if is_code_read mode
    then holds jaguar_i1 (i1_of m core) addr
    else holds jaguar_d1 (d1_of m core) addr

record LookedUp (m m' : JaguarModule) (core addr : ℕ) (mode : AccessMode) (r : AccessResult)
    : Type 0 where
  result : r ≡ classify (holds_l2 m addr) (holds_l1 m core mode addr) mode
  l2 : holds_l2 m' addr ≡ true
  l1 : holds_l1 m' core mode addr ≡ true
  same : (j : ℕ) → j ≢ core → Same m m' j

look_up-LookedUp :
    (core addr : ℕ) (mode : AccessMode) {m : JaguarModule}
    → core < 4
    → IsModule m
    → LookedUp m (look_up m core addr mode).1 core addr mode (look_up m core addr mode).0
unfolding look_up access_l1
look_up-LookedUp core addr mode {m} h v = elim (Bool-cases (is_code_read mode)) [
  | inl e ↦
      let l1 = access-holds i1_geometry (v.i1.each core h) addr in
      rw (e, l2.0, l1.0)
        (record {
          result = rw e;
          l2 = l2.1;
          l1 = rw (e, get_or-set_self m.core_i1 core _ no_cache (omega (arith, v.i1.count))) l1.1;
          same = λ j n. record {
            d1 = refl;
            i1 = get_or-set_ne m.core_i1 core j _ no_cache (λ q. n (sym q));
          };
        })
  | inr e ↦
      let l1 = access-holds d1_geometry (v.d1.each core h) addr in
      rw (e, l2.0, l1.0)
        (record {
          result = rw e;
          l2 = l2.1;
          l1 = rw (e, get_or-set_self m.core_d1 core _ no_cache (omega (arith, v.d1.count))) l1.1;
          same = λ j n. record {
            d1 = get_or-set_ne m.core_d1 core j _ no_cache (λ q. n (sym q));
            i1 = refl;
          };
        })
]
  where
    l2 :
        ((Cache.access jaguar_l2 m.level2 addr).0 ≡ holds_l2 m addr)
        × (holds jaguar_l2 (Cache.access jaguar_l2 m.level2 addr).1 addr ≡ true)
    l2 = access-holds l2_geometry v.l2 addr

-- What holds after an access by a core to its module.
pub record After (sim sim' : JaguarCacheSim) (this core addr : ℕ) (mode : AccessMode)
    (r : AccessResult) : Type 0 where
  pub valid : IsSim sim'
  pub result :
      r
      ≡ classify
          (holds_l2 (module_at sim this) addr)
          (holds_l1 (module_at sim this) core mode addr)
          mode
  pub l2 : holds_l2 (module_at sim' this) addr ≡ true
  pub l1 : holds_l1 (module_at sim' this) core mode addr ≡ true

-- What holds besides after a write.
pub record AfterWrite (sim sim' : JaguarCacheSim) (this core addr : ℕ) : Type 0 where
  pub kicked : (j : ℕ) → j < 4 → j ≢ core → Kicked (module_at sim this) (module_at sim' this) j addr
  pub purged :
      (module_at sim' (1 - this)).level2
      ≡ Cache.invalidate jaguar_l2 (module_at sim (1 - this)).level2 addr
  pub spared : (j : ℕ) → Same (module_at sim (1 - this)) (module_at sim' (1 - this)) j

-- What holds besides after a read.
pub record AfterRead (sim sim' : JaguarCacheSim) (this core : ℕ) : Type 0 where
  pub same : (j : ℕ) → j ≢ core → Same (module_at sim this) (module_at sim' this) j
  pub other : module_at sim' (1 - this) ≡ module_at sim (1 - this)

module _ {sim : JaguarCacheSim} (this core addr : ℕ) (v : IsSim sim) (lt : this < 2)
    (h : core < 4) where
  look_up-After :
      (mode : AccessMode)
      → let (r, m) = look_up (module_at sim this) core addr mode in
        After sim (set_module sim this m) this core addr mode r
  look_up-After mode =
      let looked = look_up-LookedUp core addr mode h (v.each this lt) in
      record {
        valid = look_up-IsSim this core addr mode v lt h;
        result = looked.result;
        l2 =
            rw (module_at-set_self this (look_up (module_at sim this) core addr mode).1 v lt)
              looked.l2;
        l1 =
            rw (module_at-set_self this (look_up (module_at sim this) core addr mode).1 v lt)
              looked.l1;
      }

  pub access_module-AfterRead :
      (mode : AccessMode)
      → is_write mode ≡ false
      → AfterRead sim (access_module sim this core addr mode).1 this core
  unfolding access_module
  access_module-AfterRead mode e = rw e (record {
    same = λ j n.
        rw (module_at-set_self this (look_up (module_at sim this) core addr mode).1 v lt)
          ((look_up-LookedUp core addr mode h (v.each this lt)).same j n);
    other = module_at-set_ne sim this (1 - this) _ (omega arith);
  })

module _ {sim : JaguarCacheSim} (this core addr : ℕ) (v : IsSim sim) (lt : this < 2)
    (h : core < 4) where
  before : BeforeWrite sim (before_write sim this core addr) this core addr
  before = before_write-BeforeWrite this core addr v lt

  -- The writing core's own caches are left for the access itself.
  before_mine :
      (mode : AccessMode)
      → (holds_l2 (module_at (before_write sim this core addr) this) addr
          ≡ holds_l2 (module_at sim this) addr)
        × (holds_l1 (module_at (before_write sim this core addr) this) core mode addr
            ≡ holds_l1 (module_at sim this) core mode addr)
  before_mine mode =
      let same = kick_cores-Same core addr 4 0 core (module_at sim this) (inr refl) in
      (
        rw (before.mine, level2-kick_cores core addr 4 0 (module_at sim this)),
        rw (before.mine, same.d1, same.i1),
      )

  pub access_module-After :
      (mode : AccessMode)
      → let (r, sim') = access_module sim this core addr mode in
        After sim sim' this core addr mode r
  unfolding access_module
  access_module-After mode = elim (Bool-cases (is_write mode)) [
    | inl e ↦
        let a = look_up-After this core addr before.valid lt h mode in
        rw e (record {
          valid = a.valid;
          result = a.result ∙ rw ((before_mine mode).0, (before_mine mode).1);
          l2 = a.l2;
          l1 = a.l1;
        })
    | inr e ↦ rw e (look_up-After this core addr v lt h mode)
  ]

  pub access_module-AfterWrite :
      AfterWrite sim (access_module sim this core addr write).1 this core addr
  unfolding access_module
  access_module-AfterWrite = record {
    kicked = λ j lt4 n.
        let looked = look_up-LookedUp core addr write h (before.valid.each this lt) in
        let kick =
          kick_cores-Kicked core addr 4 0 j (v.each this lt) (omega arith) (omega arith)
            (omega arith) n in
        let same = looked.same j n in
        rw mine
          (record { d1 = same.d1 ∙ rw before.mine kick.d1; i1 = same.i1 ∙ rw before.mine kick.i1 });
    purged = rw (theirs, before.others);
    spared = λ j. rw (theirs, before.others) (record { d1 = refl; i1 = refl });
  }
    where
      mine :
          module_at
            (set_module
              (before_write sim this core addr)
              this
              (look_up (module_at (before_write sim this core addr) this) core addr write).1)
            this
          ≡ (look_up (module_at (before_write sim this core addr) this) core addr write).1
      mine = module_at-set_self this _ before.valid lt

      theirs :
          module_at
            (set_module
              (before_write sim this core addr)
              this
              (look_up (module_at (before_write sim this core addr) this) core addr write).1)
            (1 - this)
          ≡ module_at (before_write sim this core addr) (1 - this)
      theirs = module_at-set_ne (before_write sim this core addr) this (1 - this) _ (omega arith)
