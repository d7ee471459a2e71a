-- ===== src/Cache/Residency.antt =====
-- Which lines a cache holds, and how `Access` and `Invalidate` change that.
use ig_cachesim.Common.{
  ℕ, zero, suc, ◌≤◌, ◌<◌, ◌≡◌, ◌≢◌, refl, Bool, true, false, List, [], ◌∷◌, ◌++◌, arith, get_or,
  length, get_or-set_self, get_or-set_ne, ==_refl, Bool-cases, inl, inr,
}
use native.Mathlib.Decide.{ℕ_discrete}
use ig_cachesim.SetData.{SetData, access_set, invalidate_set}
use ig_cachesim.SetData.Loops.{mem, remove, access_set_lem, invalidate_set_lem}
use ig_cachesim.SetData.Unique.{
  IsUnique, count-absent, count-eq-zero, count-ne-zero, count-access_set, count-invalidate_set_self,
}
use ig_cachesim.Cache.{Geometry, Cache, line_of, line_index, access, invalidate}
use ig_cachesim.Cache.Valid.{IsGeometry, IsValid, IsSetAt, line_index-lt}

-- The cache holds the line of an address.
abbrev pub holds : Geometry → Cache → ℕ → Bool
holds g c addr = mem (line_of addr) (get_or c.sets (line_index g (line_of addr)) [])

hit-access_set :
    (ways b : ℕ) (s : SetData)
    → 1 ≤ ways
    → length s ≡ ways
    → ((access_set ways s b).0 ≡ mem b s) × (mem b (access_set ways s b).1 ≡ true)
hit-access_set zero b s pos h = absurd (omega arith)
hit-access_set (suc w) b s pos h = rw (access_set_lem w b s h) (refl, rw ==_refl)

mem-access_set :
    (ways b q : ℕ) (s : SetData)
    → 1 ≤ ways
    → length s ≡ ways
    → q ≢ b
    → mem q (access_set ways s b).1 ≡ true
    → mem q s ≡ true
mem-access_set zero b q s pos h n m = absurd (omega arith)
mem-access_set (suc w) b q s pos h n m = elim (Bool-cases (mem q s)) [
  | inl e ↦ e
  | inr e ↦
      absurd (omega (arith, count-absent q s e, count-ne-zero q _ m, count-access_set w b s h q n))
]

mem-append_empty : (q : ℕ) (t : List ℕ) → q ≢ 0 → mem q (t ++ (0 ∷ [])) ≡ mem q t
mem-append_empty q [] z = ground arith
mem-append_empty q (x ∷ t) z = ground (arith, mem-append_empty q t)

mem-remove : (q b : ℕ) (t : List ℕ) → q ≢ b → mem q (remove b t) ≡ mem q t
mem-remove q b [] n = refl
mem-remove q b (x ∷ t) n = ground (arith, mem-remove q b t)

mem-invalidate_set :
    (ways b q : ℕ) (s : SetData)
    → 1 ≤ ways
    → length s ≡ ways
    → q ≢ b
    → q ≢ 0
    → mem q (invalidate_set ways s b) ≡ mem q s
mem-invalidate_set zero b q s pos h n z = absurd (omega arith)
mem-invalidate_set (suc w) b q s pos h n z =
    rw (invalidate_set_lem w b s h)
      (ground (arith, mem-append_empty q (remove b s), mem-remove q b s))

mem-invalidate_set_self :
    (ways b : ℕ) (s : SetData)
    → 1 ≤ ways
    → length s ≡ ways
    → IsUnique s
    → b ≢ 0
    → mem b (invalidate_set ways s b) ≡ false
mem-invalidate_set_self zero b s pos h u z = absurd (omega arith)
mem-invalidate_set_self (suc w) b s pos h u z =
    count-eq-zero b _ (count-invalidate_set_self w b s h u z)

module _ {g : Geometry} (geo : IsGeometry g) {c : Cache} (v : IsValid g c) where
  at_line :
      (line : ℕ)
      → IsSetAt g.ways (line_index g) (line_index g line) (get_or c.sets (line_index g line) [])
  at_line line = v.each (line_index g line) (line_index-lt geo line)

  in_sets : (line : ℕ) → line_index g line < length c.sets
  in_sets line = omega (arith, v.width, line_index-lt geo line)

  -- `Access` to a well-formed cache hits exactly when the cache holds the line, and then the cache
  -- holds it.
  pub access-holds :
      (addr : ℕ)
      → ((access g c addr).0 ≡ holds g c addr) × (holds g (access g c addr).1 addr ≡ true)
  unfolding access
  access-holds addr =
      let line = line_of addr in
      let r = hit-access_set g.ways line _ geo.some_way (at_line line).width in
      (r.0, rw (get_or-set_self c.sets (line_index g line) _ [] (in_sets line)) r.1)

  -- `Access` brings in no other line.
  pub holds-access :
      (addr other : ℕ)
      → line_of other ≢ line_of addr
      → holds g (access g c addr).1 other ≡ true
      → holds g c other ≡ true
  unfolding access
  holds-access addr other n m =
      elim (ℕ_discrete (line_index g (line_of addr)) (line_index g (line_of other))) [
        | yes e ↦ rw (← e) (
            mem-access_set g.ways (line_of addr) (line_of other) _ geo.some_way
              (at_line (line_of addr)).width n
              (rw (← e, get_or-set_self c.sets _ _ [] (in_sets (line_of addr))) at m))
        | no ne ↦ rw (get_or-set_ne c.sets _ _ _ [] ne) at m
      ]

  -- `Access` leaves every line of another set as it was.
  pub holds-access_ne :
      (addr other : ℕ)
      → line_index g (line_of addr) ≢ line_index g (line_of other)
      → holds g (access g c addr).1 other ≡ holds g c other
  unfolding access
  holds-access_ne addr other n = rw (get_or-set_ne c.sets _ _ _ [] n)

  -- After `Invalidate` of an address whose line number is not zero, a well-formed cache does not
  -- hold its line.
  pub holds-invalidate_self :
      (addr : ℕ) → line_of addr ≢ 0 → holds g (invalidate g c addr) addr ≡ false
  unfolding invalidate
  holds-invalidate_self addr z =
      let line = line_of addr in
      rw (get_or-set_self c.sets (line_index g line) _ [] (in_sets line)) (
        mem-invalidate_set_self g.ways line _ geo.some_way (at_line line).width
          (at_line line).unique z)

  -- `Invalidate` takes no other line out of a well-formed cache and brings none in, but for the
  -- line of number zero.
  pub holds-invalidate :
      (addr other : ℕ)
      → line_of other ≢ line_of addr
      → line_of other ≢ 0
      → holds g (invalidate g c addr) other ≡ holds g c other
  unfolding invalidate
  holds-invalidate addr other n z =
      elim (ℕ_discrete (line_index g (line_of addr)) (line_index g (line_of other))) [
        | yes e ↦
            rw (← e, get_or-set_self c.sets _ _ [] (in_sets (line_of addr)))
              (mem-invalidate_set g.ways (line_of addr) (line_of other) _ geo.some_way
                (at_line (line_of addr)).width n z)
        | no ne ↦ rw (get_or-set_ne c.sets _ _ _ [] ne)
      ]
