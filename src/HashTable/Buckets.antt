-- ===== src/HashTable/Buckets.antt =====
-- An array of `2 ^ bits` chains: where elements stand, what it holds under a key, and how an element is
-- put in front of a chain.
use native.Mathlib.Decide.{ℕ_discrete}
use ig_cachesim.Common.{
  ℕ, zero, suc, ◌+◌, ◌-◌, ◌%◌, ◌^◌, ◌≤◌, ◌<◌, ◌≡◌, refl, ap, sym, ◌∙◌, Option, none, some, List, [],
  ◌∷◌, arith, if◌then◌else◌, get_or, set, length, drop, replicate, length-set, get_or-set_self,
  get_or-set_ne, get_or-replicate, length-replicate, bit_and_mask, pow_pos, Bool-cases, inl, inr,
}
use ig_cachesim.HashTable.{Key, Elem, Chain, bucket_index}
use ig_cachesim.HashTable.Chain.{find_key, count_key, AllPlaced, count_key-none, hash_congr}

-- The bucket of a hash is its remainder by the capacity.
pub bucket_index-mod :
    (bits hash : ℕ)
    → 2 ^ bits < 2 ^ 64
    → hash < 2 ^ 32
    → bucket_index (2 ^ bits) hash ≡ hash % 2 ^ bits
unfolding bucket_index
bucket_index-mod bits hash small h =
    let wrap : (2 ^ bits + 2 ^ 64 - 1) % 2 ^ 64 ≡ 2 ^ bits - 1 = omega (arith, pow_pos bits) in
    rw (wrap, bit_and_mask bits hash) (omega (arith, pow_pos bits))

-- The number of elements of all the chains.
unfoldable pub total {ℓ} : {A : Type ℓ} → List (List A) → ℕ
total [] = 0
total (c ∷ cs) = length c + total cs

pub total-set {ℓ} :
    {A : Type ℓ} (bs : List (List A)) (i : ℕ) (c : List A)
    → i < length bs
    → total (set bs i c) + length (get_or bs i []) ≡ total bs + length c
unfolding total
total-set [] i c h = absurd (omega arith)
total-set (x ∷ bs) zero c h = omega arith
total-set (x ∷ bs) (suc i) c h = omega (arith, total-set bs i c (omega arith))

pub total-replicate {ℓ} : (A : Type ℓ) (n : ℕ) → total {A = A} (replicate n []) ≡ 0
unfolding total
total-replicate A zero = refl
total-replicate A (suc n) = omega (arith, total-replicate A n)

pub total-drop {ℓ} :
    {A : Type ℓ} (i : ℕ) (bs : List (List A))
    → i < length bs
    → total (drop i bs) ≡ length (get_or bs i []) + total (drop (suc i) bs)
unfolding total
total-drop zero [] h = absurd (omega arith)
total-drop zero (c ∷ bs) h = refl
total-drop (suc i) [] h = absurd (omega arith)
total-drop (suc i) (c ∷ bs) h = total-drop i bs (omega arith)

pub total-drop_all {ℓ} :
    {A : Type ℓ} (i : ℕ) (bs : List (List A)) → length bs ≤ i → total (drop i bs) ≡ 0
unfolding total
total-drop_all zero [] h = refl
total-drop_all zero (c ∷ bs) h = absurd (omega arith)
total-drop_all (suc i) [] h = refl
total-drop_all (suc i) (c ∷ bs) h = total-drop_all i bs (omega arith)

abbrev pub home {ℓ} : {K : Type ℓ} ⦃key : Key K⦄ → ℕ → K → ℕ
home ⦃key⦄ n q = bucket_index n (key.hash q)

module _ {ℓ} {K V : Type ℓ} ⦃key : Key K⦄ where
  unfoldable pub lookup : List (Chain K V) → ℕ → K → Option V
  lookup bs n q = find_key q (get_or bs (home n q) [])

  -- `n` chains, each key in its own and only once.
  pub record IsPlaced (n : ℕ) (bs : List (Chain K V)) : Type ℓ where
    pub width : length bs ≡ n
    pub in_range : (q : K) → home n q < n
    pub placed : (i : ℕ) → i < n → AllPlaced (bucket_index n) i (get_or bs i [])
    pub once : (q : K) → count_key q (get_or bs (home n q) []) ≤ 1

  pub replicate-IsPlaced : (n : ℕ) → ((q : K) → home n q < n) → IsPlaced n (replicate n [])
  unfolding count_key
  replicate-IsPlaced n range = record {
    width = length-replicate n [];
    in_range = range;
    placed = λ i h. rw (get_or-replicate {A = Chain K V} n i []) tt;
    once = λ q. rw (get_or-replicate {A = Chain K V} n (home n q) []) (omega arith);
  }

  pub lookup-replicate : (n m : ℕ) (q : K) → lookup (replicate m []) n q ≡ none
  unfolding lookup find_key
  lookup-replicate n m q = rw (get_or-replicate {A = Chain K V} m (home n q) [])

  module _ (n : ℕ) (bs : List (Chain K V)) (v : IsPlaced n bs) (e : Elem K V) where
    abbrev push : List (Chain K V)
    push = set bs (bucket_index n e.hash) (e ∷ get_or bs (bucket_index n e.hash) [])

    slot : ℕ
    slot = bucket_index n e.hash

    slot-lt : e.hash ≡ key.hash e.key → slot < length bs
    unfolding slot
    slot-lt own = rw (own, v.width) (v.in_range e.key)

    pub push-IsPlaced : e.hash ≡ key.hash e.key → lookup bs n e.key ≡ none → IsPlaced n push
    unfolding lookup count_key slot
    push-IsPlaced own absent = record {
      width = length-set bs _ _ ∙ v.width;
      in_range = v.in_range;
      placed = λ i h. elim (ℕ_discrete slot i) [
        | yes at_slot ↦
            rw (← at_slot, get_or-set_self bs slot (e ∷ get_or bs slot []) [] (slot-lt own))
              ((own, refl, v.placed slot (rw at_slot h)))
        | no other ↦ rw (get_or-set_ne bs slot i (e ∷ get_or bs slot []) [] other) (v.placed i h)
      ];
      once = λ q. elim (ℕ_discrete slot (home n q)) [
        | yes at_slot ↦
            rw (← at_slot, get_or-set_self bs slot (e ∷ get_or bs slot []) [] (slot-lt own))
              (elim (Bool-cases (key.equal q e.key)) [
                | inl same ↦ rw same (
                    omega (
                      arith,
                      count_key-none e.key (get_or bs slot []) (rw own absent),
                      ap (λ x. count_key x (get_or bs slot [])) ((key.equal_iff q e.key).0 same),
                    ))
                | inr ne ↦ rw ne (omega (arith, rw (← at_slot) at (v.once q)))
              ])
        | no other ↦
            rw (get_or-set_ne bs slot (home n q) (e ∷ get_or bs slot []) [] other) (v.once q)
      ];
    }

    pub lookup-push :
        e.hash ≡ key.hash e.key
        → (q : K) → lookup push n q ≡ (if key.equal q e.key then some e.value else lookup bs n q)
    unfolding lookup find_key slot
    lookup-push own q = elim (ℕ_discrete slot (home n q)) [
      | yes at_slot ↦
          rw (← at_slot, get_or-set_self bs slot (e ∷ get_or bs slot []) [] (slot-lt own))
      | no other ↦
          rw (get_or-set_ne bs slot (home n q) (e ∷ get_or bs slot []) [] other)
            (elim (Bool-cases (key.equal q e.key)) [
              | inl same ↦
                  absurd (other (ap (bucket_index n) (own ∙ sym (hash_congr q e.key same))))
              | inr ne ↦ rw ne
            ])
    ]

    pub total-push : e.hash ≡ key.hash e.key → total push ≡ total bs + 1
    unfolding slot
    total-push own = omega (
      arith,
      total-set bs (bucket_index n e.hash) (e ∷ get_or bs (bucket_index n e.hash) []) (slot-lt own),
    )
