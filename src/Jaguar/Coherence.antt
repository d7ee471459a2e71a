-- ===== src/Jaguar/Coherence.antt =====
-- What the cores see of each other's accesses. `next` is the simulator after one access to a module.
use ig_cachesim.Common.{
  ℕ, ◌-◌, ◌<◌, ◌≡◌, ◌≢◌, refl, ◌∙◌, Bool, true, false, ◌&&◌, arith, if◌then◌else◌, Bool-cases, inl,
  inr,
}
use ig_cachesim.Cache.{line_of}
use ig_cachesim.Cache.Residency.{holds-invalidate_self}
use ig_cachesim.Jaguar.{
  AccessMode, read, write, is_code_read, AccessResult, d1_hit, i1_hit, l2_hit, l2_i_miss, l2_d_miss,
  JaguarCacheSim, module_at, classify, access_module,
}
use ig_cachesim.Jaguar.Valid.{IsSim, d1_geometry, i1_geometry, l2_geometry}
use ig_cachesim.Jaguar.After.{
  holds_l2, holds_l1, access_module-After, access_module-AfterRead, access_module-AfterWrite,
}

abbrev pub next : JaguarCacheSim → ℕ → ℕ → ℕ → AccessMode → JaguarCacheSim
next sim this core addr mode = (access_module sim this core addr mode).1

abbrev pub result : JaguarCacheSim → ℕ → ℕ → ℕ → AccessMode → AccessResult
result sim this core addr mode = (access_module sim this core addr mode).0

-- What an access reports of a line, by whether the L2 and the L1 cache held it and whether code is
-- read.
unfoldable pub expected : (in_l2 in_l1 code : Bool) → AccessResult
expected true true true = i1_hit
expected true true false = d1_hit
expected true false _ = l2_hit
expected false _ true = l2_i_miss
expected false _ false = l2_d_miss

verdict_lem :
    (l2 l1 code : Bool)
    → (if l2 && l1
        then (if code then i1_hit else d1_hit)
        else if l2
        then l2_hit
        else if code
        then l2_i_miss
        else l2_d_miss)
      ≡ expected l2 l1 code
unfolding expected
verdict_lem true true true = refl
verdict_lem true true false = refl
verdict_lem true false code = refl
verdict_lem false l1 true = refl
verdict_lem false l1 false = refl

classify-expected :
    (l2 l1 : Bool) (mode : AccessMode) → classify l2 l1 mode ≡ expected l2 l1 (is_code_read mode)
unfolding classify
classify-expected l2 l1 mode = verdict_lem l2 l1 (is_code_read mode)

module _ {sim : JaguarCacheSim} (this core addr : ℕ) (v : IsSim sim) (lt : this < 2)
    (h : core < 4) where
  -- In a well-formed simulator the result of an access tells which caches held the line before it:
  -- L1 and L2 for a hit in the L1, the L2 alone for an L2 hit, not the L2 for a miss, each by
  -- whether code is read. A write tells the same as a read of data.
  pub result-expected :
      (mode : AccessMode)
      → result sim this core addr mode
        ≡ expected
            (holds_l2 (module_at sim this) addr)
            (holds_l1 (module_at sim this) core mode addr)
            (is_code_read mode)
  result-expected mode =
      (access_module-After this core addr v lt h mode).result ∙ classify-expected _ _ mode

  -- In a well-formed simulator, an access by the core that has just accessed the line by the same
  -- L1 cache hits that cache.
  pub result-next_self :
      (mode again : AccessMode)
      → is_code_read again ≡ is_code_read mode
      → result (next sim this core addr mode) this core addr again
        ≡ (if is_code_read again then i1_hit else d1_hit)
  unfolding classify
  result-next_self mode again e =
      let a = access_module-After this core addr v lt h mode in
      let b = access_module-After this core addr a.valid lt h again in b.result ∙ rw (a.l2, e, a.l1)

  -- In a well-formed simulator, after a write to a line whose number is not zero another core of
  -- the module finds the line in the L2 and not in its L1 caches.
  pub result-next_write :
      (j : ℕ) (mode : AccessMode)
      → j < 4
      → j ≢ core
      → line_of addr ≢ 0
      → result (next sim this core addr write) this j addr mode ≡ l2_hit
  unfolding classify
  result-next_write j mode lt4 n z =
      let a = access_module-After this core addr v lt h write in
      let kick = (access_module-AfterWrite this core addr v lt h).kicked j lt4 n in
      let b = access_module-After this j addr a.valid lt lt4 mode in
      let m = v.each this lt in
      b.result
      ∙ rw
          (
            a.l2,
            kick.d1,
            kick.i1,
            holds-invalidate_self d1_geometry (m.d1.each j lt4) addr z,
            holds-invalidate_self i1_geometry (m.i1.each j lt4) addr z,
          )
          (elim (Bool-cases (is_code_read mode)) [ inl e ↦ rw e | inr e ↦ rw e ])

  -- In a well-formed simulator, after a write to a line whose number is not zero a core of the
  -- other module misses its L2.
  pub result-next_write_other :
      (j : ℕ) (mode : AccessMode)
      → j < 4
      → line_of addr ≢ 0
      → result (next sim this core addr write) (1 - this) j addr mode
        ≡ (if is_code_read mode then l2_i_miss else l2_d_miss)
  unfolding classify
  result-next_write_other j mode lt4 z =
      let a = access_module-After this core addr v lt h write in
      let w = access_module-AfterWrite this core addr v lt h in
      let b = access_module-After (1 - this) j addr a.valid (omega arith) lt4 mode in
      b.result
      ∙ rw (w.purged, holds-invalidate_self l2_geometry (v.each (1 - this) (omega arith)).l2 addr z)

  -- In a well-formed simulator a write leaves the L1 caches of the other module alone: a core `j`
  -- there that held the line in its data cache reads it as an L1 hit, as soon as another core `k`
  -- of that module has read it.
  pub result-next_stale :
      (j k : ℕ)
      → j < 4
      → k < 4
      → j ≢ k
      → holds_l1 (module_at sim (1 - this)) j read addr ≡ true
      → result (next (next sim this core addr write) (1 - this) k addr read) (1 - this) j addr read
        ≡ d1_hit
  unfolding classify
  result-next_stale j k lj lk n old =
      let a = access_module-After this core addr v lt h write in
      let w = access_module-AfterWrite this core addr v lt h in
      let b = access_module-After (1 - this) k addr a.valid (omega arith) lk read in
      let r = access_module-AfterRead (1 - this) k addr a.valid (omega arith) lk read refl in
      let c = access_module-After (1 - this) j addr b.valid (omega arith) lj read in
      c.result ∙ rw (b.l2, (r.same j n).d1, (w.spared j).d1, old)
