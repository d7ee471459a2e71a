-- ===== src/HashTable/Dropping.antt =====
-- A chain without its first element of a key, which is what the search of `Remove` leaves.
use ig_cachesim.Common.{
  ℕ, ◌+◌, ◌≤◌, ◌≡◌, ap, true, none, some, [], ◌∷◌, arith, if◌then◌else◌, length, Bool-cases, inl,
  inr,
}
use ig_cachesim.HashTable.{Key, Chain, remove_chain}
use ig_cachesim.HashTable.Chain.{
  find_key, count_key, find_key-none, hash_congr, equal_congr, equal_symm, AllPlaced,
}

module _ {ℓ} {K V : Type ℓ} ⦃key : Key K⦄ where
  -- The chain without the first element of `k`.
  unfoldable pub drop_key : K → Chain K V → Chain K V
  drop_key k [] = []
  drop_key k (e ∷ es) = if key.equal e.key k then es else e ∷ drop_key k es

  pub remove_chain-drop_key :
      (k : K) (index : ℕ → ℕ) (i : ℕ) (c : Chain K V) (x : V)
      → AllPlaced index i c
      → find_key k c ≡ some x
      → remove_chain (key.hash k) k c ≡ some (drop_key k c)
  unfolding remove_chain drop_key find_key
  remove_chain-drop_key k index i [] x p h = ground arith
  remove_chain-drop_key k index i (e ∷ es) x p h =
      ground (arith, remove_chain-drop_key k index i es x, equal_symm k e.key, hash_congr e.key k)

  find_key-congr : (q k : K) (c : Chain K V) → key.equal q k ≡ true → find_key q c ≡ find_key k c
  find_key-congr q k c e = ap (λ x. find_key x c) ((key.equal_iff q k).0 e)

  pub find_key-drop_key :
      (k q : K) (c : Chain K V)
      → count_key k c ≤ 1
      → find_key q (drop_key k c) ≡ (if key.equal q k then none else find_key q c)
  unfolding drop_key find_key count_key
  find_key-drop_key k q [] h = ground arith
  find_key-drop_key k q (e ∷ es) h = ground (
    arith,
    find_key-drop_key k q es,
    find_key-none k es,
    equal_symm k e.key,
    equal_symm q k,
    equal_congr q k e.key,
    equal_congr k e.key q,
    equal_symm q e.key,
    find_key-congr q k es,
  )

  pub length-drop_key :
      (k : K) (c : Chain K V) (x : V) → find_key k c ≡ some x → length (drop_key k c) + 1 ≡ length c
  unfolding drop_key find_key
  length-drop_key k [] x h = ground arith
  length-drop_key k (e ∷ es) x h = ground (arith, length-drop_key k es x, equal_symm k e.key)

  pub count_key-drop_key : (k q : K) (c : Chain K V) → count_key q (drop_key k c) ≤ count_key q c
  unfolding drop_key count_key
  count_key-drop_key k q [] = omega arith
  count_key-drop_key k q (e ∷ es) = ground (arith, count_key-drop_key k q es)

  pub AllPlaced-drop_key :
      (index : ℕ → ℕ) (i : ℕ) (k : K) (c : Chain K V)
      → AllPlaced index i c
      → AllPlaced index i (drop_key k c)
  unfolding drop_key
  AllPlaced-drop_key index i k [] p = tt
  AllPlaced-drop_key index i k (e ∷ es) p = elim (Bool-cases (key.equal e.key k)) [
    | inl t ↦ rw t p.2
    | inr t ↦ rw t ((p.0, p.1, AllPlaced-drop_key index i k es p.2))
  ]
