-- ===== src/HashTable/Listed.antt =====
-- The elements of a table that has each key once, one by one.
use ig_cachesim.Common.{◌≤◌, ◌≡◌, sym, ◌∙◌, All, All-map, some, [], ◌∷◌, arith}
use ig_cachesim.HashTable.{Key, Elem, Chain, HashTable, find}
use ig_cachesim.HashTable.Chain.{find_key, count_key, find_key-none, equal_refl}
use ig_cachesim.HashTable.Keys.{Lists}

module _ {ℓ} {K V : Type ℓ} ⦃key : Key K⦄ where
  find_key-cons :
      (q : K) (v : V) (e : Elem K V) (es : Chain K V)
      → count_key q (e ∷ es) ≤ 1
      → find_key q es ≡ some v
      → find_key q (e ∷ es) ≡ some v
  unfolding find_key count_key
  find_key-cons q v e es h p = ground (arith, find_key-none q es)

  once_find :
      (es : Chain K V)
      → ((q : K) → count_key q es ≤ 1)
      → All (λ e. find_key e.key es ≡ some e.value) es
  unfolding find_key count_key
  once_find [] h = tt
  once_find (e ∷ es) h = (
    rw (equal_refl e.key),
    All-map {P = λ (x : Elem K V). find_key x.key es ≡ some x.value}
        (λ x. find_key-cons x.key x.value e es (h x.key)) es
        (once_find es (λ q. omega (arith, h q))),
  )

  -- Every element that is listed is found under its key.
  pub Lists-found :
      (t : HashTable K V) (es : Chain K V) → Lists t es → All (λ e. find t e.key ≡ some e.value) es
  Lists-found t es l =
      All-map {P = λ (x : Elem K V). find_key x.key es ≡ some x.value}
        (λ x p. sym (l.reads x.key) ∙ p) es (once_find es l.once)
