-- ===== src/HashTable/Rehash.antt =====
-- `Grow`: the move of the elements to the chains of the new array.
use native.Mathlib.Decide.{ℕ_discrete}
use mathlib.Core.Option.{or_else}
use ig_cachesim.Common.{
  ℕ, zero, suc, ◌+◌, ◌≤◌, ◌<◌, ◌≡◌, ◌≢◌, refl, ◌∙◌, true, false, Option, none, some, List, [], ◌∷◌,
  arith, ltb, if◌then◌else◌, get_or, length, drop,
}
use ig_cachesim.HashTable.{Key, Chain, bucket_index, move_chain, rehash}
use ig_cachesim.HashTable.Chain.{
  find_key, count_key, AllPlaced, find_key-none, count_key-placed, equal_refl,
}
use ig_cachesim.HashTable.Buckets.{
  home, lookup, total, total-drop, total-drop_all, IsPlaced, push-IsPlaced, lookup-push, total-push,
}

module _ {ℓ} {K V : Type ℓ} ⦃key : Key K⦄ where
  -- What moving a chain into an array makes of it.
  record Moved (n : ℕ) (c : Chain K V) (new result : List (Chain K V)) : Type ℓ where
    valid : IsPlaced n result
    reads : (q : K) → lookup result n q ≡ or_else (find_key q c) (lookup new n q)
    size : total result ≡ total new + length c

  move_chain-Moved :
      (n : ℕ) (index : ℕ → ℕ) (i : ℕ) (c : Chain K V) (new : List (Chain K V))
      → IsPlaced n new
      → AllPlaced index i c
      → ((q : K) → count_key q c ≤ 1)
      → ((q : K) → 1 ≤ count_key q c → lookup new n q ≡ none)
      → Moved n c new (move_chain n c new)
  unfolding move_chain find_key count_key or_else
  move_chain-Moved n index i [] new v p once apart = record {
    valid = v;
    reads = λ q. refl;
    size = omega arith;
  }
  move_chain-Moved n index i (e ∷ es) new v p once apart =
      let absent = apart e.key (rw (equal_refl e.key) (omega arith)) in
      let rest =
        move_chain-Moved n index i es _ (push-IsPlaced n new v e p.0 absent) p.2
          (λ q. omega (arith, once q))
          (λ q h. rw (lookup-push n new v e p.0 q) (ground (arith, once q, apart q))) in
      record {
        valid = rest.valid;
        reads = λ q.
            rest.reads q
            ∙ rw (lookup-push n new v e p.0 q) (ground (arith, once q, find_key-none q es));
        size = omega (arith, rest.size, total-push n new v e p.0);
      }

  -- The elements of the old buckets below `i`.
  abbrev below : ℕ → List (Chain K V) → ℕ → K → Option V
  below i old m q = if ltb (home m q) i then lookup old m q else none

  module _ {m : ℕ} {old : List (Chain K V)} (v : IsPlaced m old) (i : ℕ) (q : K) where
    elsewhere : i < m → home m q ≢ i → count_key q (get_or old i []) ≡ 0
    elsewhere h n = count_key-placed q (bucket_index m) i (get_or old i []) (v.placed i h) n

    count_at : i < m → count_key q (get_or old i []) ≤ 1
    count_at h = elim (ℕ_discrete (home m q) i) [
      | yes e ↦ rw (← e) (v.once q)
      | no n ↦ omega (arith, elsewhere h n)
    ]

    below_self : i < m → 1 ≤ count_key q (get_or old i []) → below i old m q ≡ none
    below_self h c = elim (ℕ_discrete (home m q) i) [
      | yes e ↦ ground arith
      | no n ↦ absurd (omega (arith, elsewhere h n))
    ]

    -- One more bucket is what the chain in it adds.
    below-suc :
        i < m → or_else (find_key q (get_or old i [])) (below i old m q) ≡ below (suc i) old m q
    unfolding or_else lookup
    below-suc h = elim (ℕ_discrete (home m q) i) [
      | yes e ↦
          let none_yet : ltb (home m q) i ≡ false = ground arith in
          let now : ltb (home m q) (suc i) ≡ true = ground arith in
          rw (none_yet, now, e) (or_none (find_key q (get_or old i [])))
      | no n ↦
          let same : ltb (home m q) (suc i) ≡ ltb (home m q) i = ground arith in
          rw (find_key-none q (get_or old i []) (elsewhere h n), same)
    ]
      where
        or_none : (o : Option V) → or_else o none ≡ o
        or_none none = refl
        or_none (some x) = refl

  -- What `Grow`'s loop makes of the buckets from `i` on.
  pub record Rehashed (m n i : ℕ) (old new result : List (Chain K V)) : Type ℓ where
    pub valid : IsPlaced n result
    pub reads : (q : K) → lookup result n q ≡ lookup old m q
    pub size : total result ≡ total new + total (drop i old)

  pub rehash-Rehashed :
      (k i m n : ℕ) (old new : List (Chain K V))
      → i + k ≡ m
      → IsPlaced m old
      → IsPlaced n new
      → ((q : K) → lookup new n q ≡ below i old m q)
      → Rehashed m n i old new (rehash k i n old new)
  unfolding rehash total
  rehash-Rehashed zero i m n old new e v w reads = record {
    valid = w;
    reads = λ q. reads q ∙ ground (arith, v.in_range q);
    size = omega (arith, total-drop_all i old (omega (arith, v.width)));
  }
  rehash-Rehashed (suc k) i m n old new e v w reads =
      let moved =
        move_chain-Moved n (bucket_index m) i (get_or old i []) new w (v.placed i (omega arith))
          (λ q. count_at v i q (omega arith)) (λ q h. reads q ∙ below_self v i q (omega arith) h) in
      let rest =
        rehash-Rehashed k (suc i) m n old _ (omega arith) v moved.valid
          (λ q. moved.reads q ∙ rw (reads q) (below-suc v i q (omega arith))) in
      record {
        valid = rest.valid;
        reads = rest.reads;
        size = omega (arith, rest.size, moved.size, total-drop i old (omega (arith, v.width)));
      }
