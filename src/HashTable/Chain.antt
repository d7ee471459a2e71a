-- ===== src/HashTable/Chain.antt =====
-- One chain: what it holds under a key, and how often.
use mathlib.Core.Option
use mathlib.Core.Option.{or_else}
use ig_cachesim.Common.{
  ℕ, ◌+◌, ◌≡◌, ◌≢◌, refl, ap, true, false, Option, none, some, [], ◌∷◌, Bool-cases, inl, inr, arith,
  if◌then◌else◌, length,
}
use ig_cachesim.HashTable.{Key, Chain, find_chain, store_chain, remove_chain}

module _ {ℓ} {K : Type ℓ} ⦃key : Key K⦄ where
  pub equal_refl : (a : K) → key.equal a a ≡ true
  equal_refl a = (key.equal_iff a a).1 refl

  pub equal_ne : (a b : K) → a ≢ b → key.equal a b ≡ false
  equal_ne a b n = ground (arith, (key.equal_iff a b).0)

  -- A key that is equal to another has its hash.
  pub hash_congr : (a b : K) → key.equal a b ≡ true → key.hash a ≡ key.hash b
  hash_congr a b e = ap key.hash ((key.equal_iff a b).0 e)

  pub equal_congr : (a b c : K) → key.equal a b ≡ true → key.equal a c ≡ key.equal b c
  equal_congr a b c e = ap (λ x. key.equal x c) ((key.equal_iff a b).0 e)

  pub equal_symm : (a b : K) → key.equal a b ≡ key.equal b a
  equal_symm a b = elim (Bool-cases (key.equal a b)) [
    | inl e ↦ rw (e, (key.equal_iff a b).0 e, equal_refl b)
    | inr e ↦ elim (Bool-cases (key.equal b a)) [
      | inl e' ↦ rw (e', (key.equal_iff b a).0 e') (equal_refl a)
      | inr e' ↦ rw (e, e')
    ]
  ]

module _ {ℓ} {K V : Type ℓ} ⦃key : Key K⦄ where
  -- The value under a key, whatever hash is stored.
  unfoldable pub find_key : K → Chain K V → Option V
  find_key q [] = none
  find_key q (e ∷ es) = if key.equal q e.key then some e.value else find_key q es

  unfoldable pub count_key : K → Chain K V → ℕ
  count_key q [] = 0
  count_key q (e ∷ es) = (if key.equal q e.key then 1 else 0) + count_key q es

  -- Every element stores the hash of its key, and belongs to bucket `i` by `index`.
  abbrev pub AllPlaced : (ℕ → ℕ) → ℕ → Chain K V → Type ℓ
  AllPlaced index i [] = Unit
  AllPlaced index i (e ∷ es) = (e.hash ≡ key.hash e.key) × (index e.hash ≡ i) × AllPlaced index i es

  pub find_chain-find_key :
      (q : K) (index : ℕ → ℕ) (i : ℕ) (c : Chain K V)
      → AllPlaced index i c
      → find_chain (key.hash q) q c ≡ find_key q c
  unfolding find_chain find_key
  find_chain-find_key q index i [] p = refl
  find_chain-find_key q index i (e ∷ es) p =
      ground (arith, find_chain-find_key q index i es, hash_congr q e.key)

  pub find_key-none : (q : K) (c : Chain K V) → count_key q c ≡ 0 → find_key q c ≡ none
  unfolding count_key find_key
  find_key-none q [] h = refl
  find_key-none q (e ∷ es) h = ground (arith, find_key-none q es)

  pub count_key-none : (q : K) (c : Chain K V) → find_key q c ≡ none → count_key q c ≡ 0
  unfolding count_key find_key
  count_key-none q [] h = refl
  count_key-none q (e ∷ es) h = ground (arith, count_key-none q es)

  -- A key of another bucket is not in the chain.
  pub count_key-placed :
      (q : K) (index : ℕ → ℕ) (i : ℕ) (c : Chain K V)
      → AllPlaced index i c
      → index (key.hash q) ≢ i
      → count_key q c ≡ 0
  unfolding count_key
  count_key-placed q index i [] p n = refl
  count_key-placed q index i (e ∷ es) p n = ground (
    arith,
    count_key-placed q index i es,
    hash_congr q e.key,
    λ (h : key.hash q ≡ key.hash e.key). ap index h,
  )

  pub find_key-store :
      (f : V → V) (k q : K) (c : Chain K V)
      → find_key q (store_chain f k c)
        ≡ (if key.equal q k then Option.map f (find_key q c) else find_key q c)
  unfolding find_key store_chain
  find_key-store f k q [] = ground arith
  find_key-store f k q (e ∷ es) = ground (
    arith,
    find_key-store f k q es,
    equal_congr q k e.key,
    equal_congr k e.key q,
    equal_symm q k,
    equal_symm q e.key,
  )

  pub count_key-store :
      (f : V → V) (k q : K) (c : Chain K V) → count_key q (store_chain f k c) ≡ count_key q c
  unfolding count_key store_chain
  count_key-store f k q [] = refl
  count_key-store f k q (e ∷ es) = ground (arith, count_key-store f k q es)

  pub length-store : (f : V → V) (k : K) (c : Chain K V) → length (store_chain f k c) ≡ length c
  unfolding store_chain
  length-store f k [] = refl
  length-store f k (e ∷ es) = ground (arith, length-store f k es)

  pub AllPlaced-store :
      (index : ℕ → ℕ) (i : ℕ) (f : V → V) (k : K) (c : Chain K V)
      → AllPlaced index i c
      → AllPlaced index i (store_chain f k c)
  unfolding store_chain
  AllPlaced-store index i f k [] p = tt
  AllPlaced-store index i f k (e ∷ es) p = elim (Bool-cases (key.equal k e.key)) [
    | inl t ↦ rw t p
    | inr t ↦ rw t ((p.0, p.1, AllPlaced-store index i f k es p.2))
  ]

  -- The search of `Remove` runs off the end of a chain that does not hold the key.
  pub remove_chain-none :
      (k : K) (index : ℕ → ℕ) (i : ℕ) (c : Chain K V)
      → AllPlaced index i c
      → find_key k c ≡ none
      → remove_chain (key.hash k) k c ≡ none
  unfolding remove_chain find_key
  remove_chain-none k index i [] p h = refl
  remove_chain-none k index i (e ∷ es) p h =
      ground (arith, remove_chain-none k index i es, equal_symm k e.key)
