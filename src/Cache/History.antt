-- ===== src/Cache/History.antt =====
-- A cache under a sequence of accesses, set by set.
use ig_cachesim.Common.{
  ℕ, zero, suc, ◌≤◌, ◌<◌, ◌≡◌, refl, true, List, [], ◌∷◌, arith, ◌==◌, if◌then◌else◌, get_or, take,
  length, replicate, get_or-set_self, get_or-set_ne, get_or-replicate_lt, take_all,
  length-replicate, Bool-cases, inl, inr, ==_refl, ==_ne, ◌∙◌,
}
use native.Mathlib.Decide.{ℕ_discrete}
use ig_cachesim.SetData.{SetData, access_set}
use ig_cachesim.SetData.Lru.{accesses, recency, accesses-recency, access_set-accesses}
use ig_cachesim.Cache.{Geometry, Cache, init, line_of, line_index, access, set_count}
use ig_cachesim.Cache.Valid.{IsGeometry, IsValid, line_index-lt, init-IsValid, access-IsValid}

-- The cache after accesses to these addresses, in order.
unfoldable pub run : Geometry → Cache → List ℕ → Cache
run g c [] = c
run g c (a ∷ h) = run g (access g c a).1 h

-- The lines of the addresses that fall into set `i`.
unfoldable pub lines_in : Geometry → ℕ → List ℕ → List ℕ
lines_in g i [] = []
lines_in g i (a ∷ h) =
    let rest = lines_in g i h in if line_index g (line_of a) == i then line_of a ∷ rest else rest

recency_front :
    (ways : ℕ) (h : List ℕ)
    → 1 ≤ ways
    → accesses ways (replicate ways 0) h ≡ take ways (recency (replicate ways 0) h)
recency_front zero h pos = absurd (omega arith)
recency_front (suc w) h pos =
    rw (take_all (suc w) empty (omega (arith, length-replicate {0} {A = ℕ} (suc w) 0))) at
      (accesses-recency w empty h (omega (arith, length-replicate {0} {A = ℕ} (suc w) 0)))
  where
    empty : List ℕ
    empty = replicate (suc w) 0

hit_again :
    (ways b : ℕ) (s : SetData) (h : List ℕ)
    → length s ≡ ways
    → length h < ways
    → (access_set ways (accesses ways (access_set ways s b).1 h) b).0 ≡ true
hit_again zero b s h e short = absurd (omega arith)
hit_again (suc w) b s h e short = access_set-accesses w b s h e (omega arith)

module _ {g : Geometry} (geo : IsGeometry g) where
  set_of-access :
      (i a : ℕ) (c : Cache)
      → IsValid g c
      → get_or (access g c a).1.sets i [] ≡ (
          if line_index g (line_of a) == i
          then (access_set g.ways (get_or c.sets i []) (line_of a)).1
          else get_or c.sets i [])
  unfolding access
  set_of-access i a c v = elim (ℕ_discrete (line_index g (line_of a)) i) [
    | yes e ↦ rw (
      ← e,
      ==_refl,
      get_or-set_self c.sets (line_index g (line_of a)) _ []
          (omega (arith, v.width, line_index-lt geo (line_of a))),
    )
    | no n ↦ rw (==_ne _ _ n, get_or-set_ne c.sets _ i _ [] n)
  ]

  -- A set sees the accesses to its own lines, and no others.
  set_of-run :
      (i : ℕ) (c : Cache) (h : List ℕ)
      → IsValid g c
      → get_or (run g c h).sets i [] ≡ accesses g.ways (get_or c.sets i []) (lines_in g i h)
  unfolding run lines_in accesses
  set_of-run i c [] v = refl
  set_of-run i c (a ∷ h) v =
      set_of-run i (access g c a).1 h (access-IsValid geo a v)
      ∙ elim (Bool-cases (line_index g (line_of a) == i)) [
        | inl e ↦ rw (set_of-access i a c v, e)
        | inr e ↦ rw (set_of-access i a c v, e)
      ]

  -- After any sequence of accesses to a fresh cache, each set holds its most recently used lines:
  -- the first `kWays` of the lines of its index, ordered by their last access, and empty ways
  -- behind them.
  pub run-recency :
      (i : ℕ) (h : List ℕ)
      → i < set_count g
      → get_or (run g (init g) h).sets i []
        ≡ take g.ways (recency (replicate g.ways 0) (lines_in g i h))
  unfolding init
  run-recency i h lt =
      set_of-run i (init g) h (init-IsValid geo)
      ∙ (rw (get_or-replicate_lt (set_count g) i (replicate {A = ℕ} g.ways 0) [] lt)
          (recency_front g.ways (lines_in g i h) geo.some_way))

  -- In a well-formed cache, an address that was accessed is hit again if fewer than `kWays`
  -- accesses to its set came in between.
  pub access-run :
      (addr : ℕ) (c : Cache) (h : List ℕ)
      → IsValid g c
      → length (lines_in g (line_index g (line_of addr)) h) < g.ways
      → (access g (run g (access g c addr).1 h) addr).0 ≡ true
  unfolding access
  access-run addr c h v few =
      let line = line_of addr in
      let i = line_index g line in
      rw
        (
          set_of-run i (access g c addr).1 h (access-IsValid geo addr v),
          set_of-access i addr c v,
          ==_refl,
        )
        (hit_again g.ways line (get_or c.sets i []) (lines_in g i h)
          (v.each i (line_index-lt geo line)).width few)
