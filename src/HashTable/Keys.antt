-- ===== src/HashTable/Keys.antt =====
-- The elements that the iterators give, beside `Find`.
use native.Mathlib.Decide.{dec_lt}
use ig_cachesim.Common.{
  ℕ, zero, suc, ◌+◌, ◌≤◌, ◌<◌, ◌≡◌, ◌≢◌, refl, ap, sym, ◌∙◌, some, List, [], ◌∷◌, ◌++◌,
  if◌then◌else◌, get_or, get_or_beyond, length, length-append, arith, inl, inr,
}
use ig_cachesim.HashTable.{Key, Chain, HashTable, bucket_index, buckets, find}
use ig_cachesim.HashTable.Chain.{find_key, count_key, find_key-none, count_key-placed}
use ig_cachesim.HashTable.Buckets.{home, lookup, total, IsPlaced}
use ig_cachesim.HashTable.Growth.{IsFresh, IsFilled, IsValid, find-lookup, find_fresh}
use ig_cachesim.HashTable.Laws.{is_none}
use ig_cachesim.HashTable.Iteration.{concat, elements, elements-concat}

module _ {ℓ} {K V : Type ℓ} where
  length-concat : (bs : List (Chain K V)) → length (concat bs) ≡ total bs
  unfolding concat total
  length-concat [] = refl
  length-concat (c ∷ cs) = omega (arith, length-append c (concat cs), length-concat cs)

module _ {ℓ} {K V : Type ℓ} ⦃key : Key K⦄ where
  count_key-append :
      (q : K) (c d : Chain K V) → count_key q (c ++ d) ≡ count_key q c + count_key q d
  unfolding count_key
  count_key-append q [] d = omega arith
  count_key-append q (e ∷ es) d = omega (arith, count_key-append q es d)

  find_key-append :
      (q : K) (c d : Chain K V)
      → find_key q (c ++ d) ≡ (if is_none (find_key q c) then find_key q d else find_key q c)
  unfolding find_key
  find_key-append q [] d = refl
  find_key-append q (e ∷ es) d = ground (arith, find_key-append q es d)

  count_key-concat_none :
      (q : K) (bs : List (Chain K V))
      → ((i : ℕ) → count_key q (get_or bs i []) ≡ 0)
      → count_key q (concat bs) ≡ 0
  unfolding concat count_key
  count_key-concat_none q [] h = refl
  count_key-concat_none q (c ∷ cs) h =
      omega
        (arith, count_key-append q c (concat cs), h 0, count_key-concat_none q cs (λ i. h (suc i)))

  -- Where only one chain holds a key, the others add nothing.
  count_key-concat :
      (q : K) (bs : List (Chain K V)) (j : ℕ)
      → ((i : ℕ) → j ≢ i → count_key q (get_or bs i []) ≡ 0)
      → count_key q (concat bs) ≡ count_key q (get_or bs j [])
  unfolding concat
  count_key-concat q [] j h = refl
  count_key-concat q (c ∷ cs) zero h = omega (
    arith,
    count_key-append q c (concat cs),
    count_key-concat_none q cs (λ i. h (suc i) (omega arith)),
  )
  count_key-concat q (c ∷ cs) (suc j) h = omega (
    arith,
    count_key-append q c (concat cs),
    h 0 (omega arith),
    count_key-concat q cs j (λ i n. h (suc i) (omega (arith, n))),
  )

  find_key-concat :
      (q : K) (bs : List (Chain K V)) (j : ℕ)
      → ((i : ℕ) → j ≢ i → count_key q (get_or bs i []) ≡ 0)
      → find_key q (concat bs) ≡ find_key q (get_or bs j [])
  unfolding concat
  find_key-concat q [] j h = refl
  find_key-concat q (c ∷ cs) zero h = ground (
    arith,
    find_key-append q c (concat cs),
    find_key-none q (concat cs) (count_key-concat_none q cs (λ i. h (suc i) (omega arith))),
  )
  find_key-concat q (c ∷ cs) (suc j) h = ground (
    arith,
    find_key-append q c (concat cs),
    find_key-none q c (h 0 (omega arith)),
    find_key-concat q cs j (λ i n. h (suc i) (omega (arith, n))),
  )

  -- The elements `es` of a table, against what `Find` gives.
  pub record Lists (t : HashTable K V) (es : Chain K V) : Type ℓ where
    pub size : length es ≡ t.count
    pub reads : (q : K) → find_key q es ≡ find t q
    pub once : (q : K) → count_key q es ≤ 1

  elsewhere :
      (n : ℕ) (bs : List (Chain K V)) (q : K)
      → IsPlaced n bs
      → (i : ℕ) → home n q ≢ i
      → count_key q (get_or bs i []) ≡ 0
  unfolding count_key
  elsewhere n bs q v i ne = elim (dec_lt i n) [
    | yes h ↦ count_key-placed q (bucket_index n) i (get_or bs i []) (v.placed i h) ne
    | no h ↦ rw (get_or_beyond bs i [] (omega (arith, h, v.width)))
  ]

  -- The walk gives the chains of the array one after the other.
  elements-buckets :
      (fuel : ℕ) (t : HashTable K V) (bs : List (Chain K V))
      → buckets t.table ≡ bs
      → length bs ≡ t.capacity
      → total bs < fuel
      → elements fuel t ≡ some (concat bs)
  elements-buckets fuel t bs b w h =
      elements-concat fuel t (ap length b ∙ w)
        (omega (arith, ap (λ (c : List (Chain K V)). length (concat c)) b, length-concat bs, h))
      ∙ ap (λ (c : List (Chain K V)). some (concat c)) b

  concat-Lists : (t : HashTable K V) (v : IsFilled t) → Lists t (concat v.bs)
  unfolding lookup
  concat-Lists t v = record {
    size = length-concat v.bs ∙ v.counted;
    reads = λ q.
        find_key-concat q v.bs (home t.capacity q) (elsewhere t.capacity v.bs q v.placed)
        ∙ sym (find-lookup v q);
    once = λ q.
        rw (count_key-concat q v.bs (home t.capacity q) (elsewhere t.capacity v.bs q v.placed))
          (v.placed.once q);
  }

  nothing-Lists : (t : HashTable K V) → IsFresh t → Lists t []
  unfolding find_key count_key
  nothing-Lists t v = record {
    size = sym v.count;
    reads = λ q. sym (find_fresh v q);
    once = λ q. omega arith;
  }

  -- The loop over a well-formed table, given more rounds than its count, ends. The elements that it
  -- gives are as many as the count, have each key at most once, and have under each key the value
  -- that `Find` gives.
  pub elements-Lists :
      (fuel : ℕ) (t : HashTable K V)
      → IsValid t
      → t.count < fuel
      → (es : Chain K V) × (elements fuel t ≡ some es) × Lists t es
  unfolding concat total
  elements-Lists fuel t (inl v) h = (
    [],
    elements-buckets fuel t [] (ap buckets v.table) (sym v.capacity) (omega (arith, h)),
    nothing-Lists t v,
  )
  elements-Lists fuel t (inr v) h = (
    concat v.bs,
    elements-buckets fuel t v.bs (ap buckets v.here) v.placed.width (omega (arith, v.counted, h)),
    concat-Lists t v,
  )
