-- ===== src/HashTable/Writes.antt =====
-- Writes through a pointer to a value.
use native.Mathlib.Decide.{ℕ_discrete}
use mathlib.Core.Option
use ig_cachesim.Common.{
  ℕ, ◌≡◌, ◌≢◌, refl, ap, sym, ◌∙◌, some, List, [], arith, if◌then◌else◌, get_or, set, length,
  length-set, get_or-set_self, get_or-set_ne, Bool-cases, inl, inr,
}
use ig_cachesim.HashTable.{Key, Chain, HashTable, bucket_index, reset, find, store_chain, store}
use ig_cachesim.HashTable.Chain.{
  find_key-store, count_key-store, length-store, AllPlaced-store, hash_congr,
}
use ig_cachesim.HashTable.Buckets.{home, lookup, total, total-set, IsPlaced}
use ig_cachesim.HashTable.Growth.{IsFresh, IsFilled, IsValid, find-lookup, find_fresh, fresh_eq}

module _ {ℓ} {K V : Type ℓ} ⦃key : Key K⦄ where
  -- A write through the pointer to the value of `k`.
  pub record Stores (f : V → V) (t : HashTable K V) (k : K) (r : HashTable K V) : Type ℓ where
    pub valid : IsValid r
    pub reads : (q : K) → find r q ≡ (if key.equal q k then Option.map f (find t q) else find t q)
    pub count : r.count ≡ t.count

  module _ (f : V → V) (n : ℕ) (bs : List (Chain K V)) (v : IsPlaced n bs) (k : K) where
    written : List (Chain K V)
    written = set bs (home n k) (store_chain f k (get_or bs (home n k) []))

    at_home : get_or written (home n k) [] ≡ store_chain f k (get_or bs (home n k) [])
    unfolding written
    at_home =
        get_or-set_self bs (home n k) (store_chain f k (get_or bs (home n k) [])) []
          (rw v.width (v.in_range k))

    elsewhere : (i : ℕ) → home n k ≢ i → get_or written i [] ≡ get_or bs i []
    unfolding written
    elsewhere i ne = get_or-set_ne bs (home n k) i (store_chain f k (get_or bs (home n k) [])) [] ne

    width-written : length written ≡ n
    unfolding written
    width-written = length-set bs (home n k) (store_chain f k (get_or bs (home n k) [])) ∙ v.width

    written-IsPlaced : IsPlaced n written
    written-IsPlaced = record {
      width = width-written;
      in_range = v.in_range;
      placed = λ i h. elim (ℕ_discrete (home n k) i) [
        | yes e ↦
            rw (← e, at_home)
              (AllPlaced-store (bucket_index n) (home n k) f k _
                (v.placed (home n k) (v.in_range k)))
        | no ne ↦ rw (elsewhere i ne) (v.placed i h)
      ];
      once = λ q. elim (ℕ_discrete (home n k) (home n q)) [
        | yes e ↦
            rw (← e, at_home, count_key-store f k q (get_or bs (home n k) []))
              (rw (← e) at (v.once q))
        | no ne ↦ rw (elsewhere (home n q) ne) (v.once q)
      ];
    }

    lookup-written :
        (q : K)
        → lookup written n q
          ≡ (if key.equal q k then Option.map f (lookup bs n q) else lookup bs n q)
    unfolding lookup
    lookup-written q = elim (ℕ_discrete (home n k) (home n q)) [
      | yes e ↦ rw (← e, at_home) (find_key-store f k q (get_or bs (home n k) []))
      | no ne ↦ rw (elsewhere (home n q) ne) (elim (Bool-cases (key.equal q k)) [
        | inl same ↦ absurd (ne (ap (bucket_index n) (sym (hash_congr q k same))))
        | inr other ↦ rw other
      ])
    ]

    total-written : total written ≡ total bs
    unfolding written
    total-written = omega (
      arith,
      total-set bs (home n k) (store_chain f k (get_or bs (home n k) []))
          (rw v.width (v.in_range k)),
      length-store f k (get_or bs (home n k) []),
    )

  store-fresh : (f : V → V) (t : HashTable K V) (k : K) → IsFresh t → store f t k ≡ t
  unfolding store reset
  store-fresh f t k v = rw (fresh_eq v)

  store-here :
      (f : V → V) (t : HashTable K V) (k : K) (v : IsFilled t)
      → (store f t k).table ≡ some (written f t.capacity v.bs v.placed k)
  unfolding store written
  store-here f t k v = rw v.here

  -- A write through the pointer to the value of a key keeps a well-formed table well formed,
  -- changes the value of that key, if it has one, and of no other, and leaves the count.
  pub store-Stores :
      (f : V → V) (t : HashTable K V) (k : K) → IsValid t → Stores f t k (store f t k)
  unfolding store
  store-Stores f t k (inl v) = rw (store-fresh f t k v) (record {
    valid = inl v;
    reads = λ q.
        rw (find_fresh v q) (elim (Bool-cases (key.equal q k)) [ inl e ↦ rw e | inr e ↦ rw e ]);
    count = refl;
  })
  store-Stores f t k (inr v) =
      let filled : IsFilled (store f t k) = record {
        bits = v.bits;
        bs = written f t.capacity v.bs v.placed k;
        power = v.power;
        bounded = v.bounded;
        here = store-here f t k v;
        placed = written-IsPlaced f t.capacity v.bs v.placed k;
        wide = v.wide;
        counted = total-written f t.capacity v.bs v.placed k ∙ v.counted;
        load = v.load;
      } in
      record {
        valid = inr filled;
        reads = λ q.
            find-lookup filled q
            ∙ lookup-written f t.capacity v.bs v.placed k q
            ∙ rw (find-lookup v q);
        count = refl;
      }
