-- ===== src/Jaguar/Kick.antt =====
-- What the loop that kicks a line out of the other cores' L1 caches does to each of them.
use native.Mathlib.Decide.{ℕ_discrete}
use ig_cachesim.Common.{
  ℕ, zero, suc, ◌+◌, ◌≤◌, ◌<◌, ◌≡◌, ◌≢◌, ◌⊎◌, refl, ◌∙◌, arith, ◌==◌, get_or, get_or-set_self,
  get_or-set_ne, ==_refl, ==_ne, Bool-cases, inl, inr,
}
use ig_cachesim.Cache
use ig_cachesim.Cache.{Cache}
use ig_cachesim.Jaguar.{jaguar_d1, jaguar_i1, JaguarModule, no_cache, kick_core, kick_cores}
use ig_cachesim.Jaguar.Valid.{IsModule, kick_core-IsModule}

-- The two L1 caches of core `j`, and what invalidating the line in both makes of them.
abbrev pub d1_of : JaguarModule → ℕ → Cache
d1_of m j = get_or m.core_d1 j no_cache

abbrev pub i1_of : JaguarModule → ℕ → Cache
i1_of m j = get_or m.core_i1 j no_cache

-- Core `j` of `m'` is that of `m`.
pub record Same (m m' : JaguarModule) (j : ℕ) : Type 0 where
  pub d1 : d1_of m' j ≡ d1_of m j
  pub i1 : i1_of m' j ≡ i1_of m j

pub record Kicked (m m' : JaguarModule) (j addr : ℕ) : Type 0 where
  pub d1 : d1_of m' j ≡ Cache.invalidate jaguar_d1 (d1_of m j) addr
  pub i1 : i1_of m' j ≡ Cache.invalidate jaguar_i1 (i1_of m j) addr

module _ (core addr : ℕ) where
  kick_core-Same : (i j : ℕ) (m : JaguarModule) → i ≢ j → Same m (kick_core i core addr m) j
  unfolding kick_core
  kick_core-Same i j m n = elim (Bool-cases (i == core)) [
    | inl e ↦ rw e (record { d1 = refl; i1 = refl })
    | inr e ↦ rw e (record {
      d1 = get_or-set_ne m.core_d1 i j _ no_cache n;
      i1 = get_or-set_ne m.core_i1 i j _ no_cache n;
    })
  ]

  kick_core-Same_core : (m : JaguarModule) → Same m (kick_core core core addr m) core
  unfolding kick_core
  kick_core-Same_core m = rw (==_refl core) (record { d1 = refl; i1 = refl })

  kick_core-Kicked :
      (i j : ℕ) {m : JaguarModule}
      → IsModule m
      → i ≡ j
      → i < 4
      → i ≢ core
      → Kicked m (kick_core i core addr m) j addr
  unfolding kick_core
  kick_core-Kicked i j {m} v e h n =
      rw (← e, ==_ne i core n)
        (record {
          d1 = get_or-set_self m.core_d1 i _ no_cache (omega (arith, v.d1.count));
          i1 = get_or-set_self m.core_i1 i _ no_cache (omega (arith, v.i1.count));
        })

  -- The writing core, and the cores that the loop has passed, keep their caches.
  pub kick_cores-Same :
      (n i j : ℕ) (m : JaguarModule) → (j < i) ⊎ (j ≡ core) → Same m (kick_cores n i core addr m) j
  unfolding kick_cores
  kick_cores-Same zero i j m why = record { d1 = refl; i1 = refl }
  kick_cores-Same (suc n) i j m why =
      let rest = kick_cores-Same n (suc i) j (kick_core i core addr m) (ground arith) in
      let first = step in record { d1 = rest.d1 ∙ first.d1; i1 = rest.i1 ∙ first.i1 }
    where
      step : Same m (kick_core i core addr m) j
      step = elim (ℕ_discrete i j) [
        | no ne ↦ kick_core-Same i j m ne
        | yes e ↦ elim why [
          | inl lt ↦ absurd (omega arith)
          | inr same ↦ rw (e, same) (kick_core-Same_core m)
        ]
      ]

  -- Every other core that the loop visits has the line invalidated, in both caches.
  pub kick_cores-Kicked :
      (n i j : ℕ) {m : JaguarModule}
      → IsModule m
      → i ≤ j
      → j < i + n
      → i + n ≤ 4
      → j ≢ core
      → Kicked m (kick_cores n i core addr m) j addr
  unfolding kick_cores
  kick_cores-Kicked zero i j v lo hi top ne = absurd (omega arith)
  kick_cores-Kicked (suc n) i j {m} v lo hi top ne = elim (ℕ_discrete i j) [
    | yes e ↦
        let rest = kick_cores-Same n (suc i) j (kick_core i core addr m) (inl (omega arith)) in
        let first : Kicked m (kick_core i core addr m) j addr =
          kick_core-Kicked i j v e (omega arith) (rw e ne) in
        record { d1 = rest.d1 ∙ first.d1; i1 = rest.i1 ∙ first.i1 }
    | no n' ↦
        let rest =
          kick_cores-Kicked n (suc i) j (kick_core-IsModule i core addr (omega arith) v)
            (omega arith) (omega arith) (omega arith) ne in
        let first = kick_core-Same i j m n' in
        record { d1 = rest.d1 ∙ rw first.d1; i1 = rest.i1 ∙ rw first.i1 }
  ]

  pub level2-kick_cores :
      (n i : ℕ) (m : JaguarModule) → (kick_cores n i core addr m).level2 ≡ m.level2
  unfolding kick_cores kick_core
  level2-kick_cores zero i m = refl
  level2-kick_cores (suc n) i m = level2-kick_cores n (suc i) (kick_core i core addr m) ∙ step
    where
      step : (kick_core i core addr m).level2 ≡ m.level2
      step = ground arith
