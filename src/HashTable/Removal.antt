-- ===== src/HashTable/Removal.antt =====
-- What `Remove` does to the table.
use native.Mathlib.Decide.{ℕ_discrete}
use ig_cachesim.Common.{
  ℕ, ◌+◌, ◌≤◌, ◌≡◌, ◌≢◌, refl, ap, sym, ◌∙◌, true, none, some, List, [], arith, if◌then◌else◌,
  get_or, set, length, length-set, get_or-set_self, get_or-set_ne, Bool-cases, inl, inr,
}
use ig_cachesim.HashTable.{
  Key, Chain, HashTable, bucket_index, find_internal, find, remove_chain, remove,
}
use ig_cachesim.HashTable.Chain.{
  find_key, find_chain-find_key, count_key, remove_chain-none, hash_congr,
}
use ig_cachesim.HashTable.Dropping.{
  drop_key, remove_chain-drop_key, find_key-drop_key, length-drop_key, count_key-drop_key,
  AllPlaced-drop_key,
}
use ig_cachesim.HashTable.Buckets.{home, lookup, total, total-set, IsPlaced}
use ig_cachesim.HashTable.Growth.{IsFilled, IsValid, find-lookup, find_fresh}

module _ {ℓ} {K V : Type ℓ} ⦃key : Key K⦄ where
  -- What stands in the array after the element of `k` is unlinked.
  module _ (n : ℕ) (bs : List (Chain K V)) (v : IsPlaced n bs) (k : K) where
    unlinked : List (Chain K V)
    unlinked = set bs (home n k) (drop_key k (get_or bs (home n k) []))

    at_home : get_or unlinked (home n k) [] ≡ drop_key k (get_or bs (home n k) [])
    unfolding unlinked
    at_home =
        get_or-set_self bs (home n k) (drop_key k (get_or bs (home n k) [])) []
          (rw v.width (v.in_range k))

    elsewhere : (i : ℕ) → home n k ≢ i → get_or unlinked i [] ≡ get_or bs i []
    unfolding unlinked
    elsewhere i ne = get_or-set_ne bs (home n k) i (drop_key k (get_or bs (home n k) [])) [] ne

    width-unlinked : length unlinked ≡ n
    unfolding unlinked
    width-unlinked = length-set bs (home n k) (drop_key k (get_or bs (home n k) [])) ∙ v.width

    once-unlinked : (q : K) → home n k ≡ home n q → count_key q (get_or unlinked (home n q) []) ≤ 1
    once-unlinked q e = omega (
      arith,
      ap (λ i. count_key q (get_or unlinked i [])) e,
      ap (λ i. count_key q (get_or bs i [])) e,
      ap (count_key q) at_home,
      count_key-drop_key k q (get_or bs (home n k) []),
      v.once q,
    )

    unlinked-IsPlaced : IsPlaced n unlinked
    unlinked-IsPlaced = record {
      width = width-unlinked;
      in_range = v.in_range;
      placed = λ i h. elim (ℕ_discrete (home n k) i) [
        | yes e ↦
            rw (← e, at_home)
              (AllPlaced-drop_key (bucket_index n) (home n k) k _
                (v.placed (home n k) (v.in_range k)))
        | no ne ↦ rw (elsewhere i ne) (v.placed i h)
      ];
      once = λ q. elim (ℕ_discrete (home n k) (home n q)) [
        | yes e ↦ once-unlinked q e
        | no ne ↦ rw (elsewhere (home n q) ne) (v.once q)
      ];
    }

    lookup-unlinked :
        (q : K) → lookup unlinked n q ≡ (if key.equal q k then none else lookup bs n q)
    unfolding lookup
    lookup-unlinked q = elim (ℕ_discrete (home n k) (home n q)) [
      | yes e ↦ rw (← e, at_home) (find_key-drop_key k q (get_or bs (home n k) []) (v.once k))
      | no ne ↦ rw (elsewhere (home n q) ne) (elim (Bool-cases (key.equal q k)) [
        | inl same ↦ absurd (ne (ap (bucket_index n) (sym (hash_congr q k same))))
        | inr other ↦ rw other
      ])
    ]

    total-unlinked : (x : V) → lookup bs n k ≡ some x → total unlinked + 1 ≡ total bs
    unfolding unlinked lookup
    total-unlinked x h = omega (
      arith,
      total-set bs (home n k) (drop_key k (get_or bs (home n k) [])) (rw v.width (v.in_range k)),
      length-drop_key k (get_or bs (home n k) []) x h,
    )

    remove_chain-unlinked :
        (x : V)
        → lookup bs n k ≡ some x
        → remove_chain (key.hash k) k (get_or bs (home n k) [])
          ≡ some (drop_key k (get_or bs (home n k) []))
    unfolding lookup
    remove_chain-unlinked x h =
        remove_chain-drop_key k (bucket_index n) (home n k) (get_or bs (home n k) []) x
          (v.placed (home n k) (v.in_range k)) h

  -- A table `r`, against `t` before the key was removed.
  pub record Removes (t : HashTable K V) (k : K) (r : HashTable K V) : Type ℓ where
    pub bs : List (Chain K V)
    pub here : r.table ≡ some bs
    pub placed : IsPlaced r.capacity bs
    pub reads : (q : K) → find r q ≡ (if key.equal q k then none else find t q)
    pub linked : total bs + 1 ≡ t.count
    pub count : r.count ≡ t.count

  unlink : HashTable K V → List (Chain K V) → HashTable K V
  unlink t bs = record t { table = some bs }

  -- What a search reads in any array whose elements are in their buckets.
  find-placed :
      (t : HashTable K V) (bs : List (Chain K V))
      → IsPlaced t.capacity bs
      → (q : K) → find (unlink t bs) q ≡ lookup bs t.capacity q
  unfolding unlink find find_internal lookup
  find-placed t bs v q =
      find_chain-find_key q (bucket_index t.capacity) (home t.capacity q) _
        (v.placed (home t.capacity q) (v.in_range q))

  remove-unlink :
      (t : HashTable K V) (k : K) (x : V) (v : IsFilled t)
      → find t k ≡ some x
      → remove t k ≡ some (true, unlink t (unlinked t.capacity v.bs v.placed k))
  unfolding remove unlink unlinked
  remove-unlink t k x v h =
      rw (v.here, remove_chain-unlinked t.capacity v.bs v.placed k x (sym (find-lookup v k) ∙ h))

  -- `Remove` of a key that a well-formed table holds returns `true`. Then `Find` gives nothing for
  -- the key and what it gave for every other key, and each element that is left is in its chain;
  -- one element fewer is linked, but the count is as it was.
  pub remove-Removes :
      (t : HashTable K V) (k : K) (x : V)
      → IsValid t
      → find t k ≡ some x
      → (r : HashTable K V) × (remove t k ≡ some (true, r)) × Removes t k r
  unfolding unlink
  remove-Removes t k x (inl v) h =
      let e : none ≡ some x = sym (find_fresh v k) ∙ h in ground (arith, e)
  remove-Removes t k x (inr v) h =
      let bs = unlinked t.capacity v.bs v.placed k in
      let placed = unlinked-IsPlaced t.capacity v.bs v.placed k in
      (
        unlink t bs,
        remove-unlink t k x v h,
        record {
          bs = bs;
          here = refl;
          placed = placed;
          reads = λ q.
              find-placed t bs placed q
              ∙ lookup-unlinked t.capacity v.bs v.placed k q
              ∙ rw (find-lookup v q);
          linked =
              total-unlinked t.capacity v.bs v.placed k x (sym (find-lookup v k) ∙ h) ∙ v.counted;
          count = refl;
        },
      )

  -- `Remove` of a key that a well-formed table does not hold gives no result: its search reads the
  -- null pointer at the end of a chain, or the null array of a table that has not grown.
  pub remove-absent : (t : HashTable K V) (k : K) → IsValid t → find t k ≡ none → remove t k ≡ none
  unfolding remove find_key lookup
  remove-absent t k (inl v) h = rw v.table
  remove-absent t k (inr v) h = rw (
    v.here,
    remove_chain-none k (bucket_index t.capacity) (home t.capacity k) _
        (v.placed.placed (home t.capacity k) (v.placed.in_range k)) (sym (find-lookup v k) ∙ h),
  )
