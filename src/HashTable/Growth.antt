-- ===== src/HashTable/Growth.antt =====
-- The well-formed tables, and `Grow`.
use ig_cachesim.Common.{
  ℕ, suc, ◌+◌, ◌*◌, ◌%◌, ◌^◌, ◌≤◌, ◌<◌, ◌≡◌, ◌⊎◌, refl, sym, ◌∙◌, none, some, List, [], arith, ◌==◌,
  if◌then◌else◌, replicate, pow_pos,
}
use native.Mathlib.Nat.{pow-suc}
use ig_cachesim.HashTable.{
  Key, Elem, Chain, HashTable, bucket_index, reset, rehash, grow, find_internal, find,
}
use ig_cachesim.HashTable.Chain.{find_chain-find_key}
use ig_cachesim.HashTable.Buckets.{
  home, lookup, total, total-replicate, bucket_index-mod, IsPlaced, replicate-IsPlaced,
  lookup-replicate,
}
use ig_cachesim.HashTable.Rehash.{Rehashed, rehash-Rehashed}

module _ {ℓ} {K : Type ℓ} ⦃key : Key K⦄ where
  home-lt : (bits : ℕ) (q : K) → 2 ^ bits < 2 ^ 64 → home (2 ^ bits) q < 2 ^ bits
  home-lt bits q small =
      rw (bucket_index-mod bits (key.hash q) small (key.hash-lt q)) (omega (arith, pow_pos bits))

module _ {ℓ} {K V : Type ℓ} ⦃key : Key K⦄ where
  -- No array yet.
  pub record IsFresh (t : HashTable K V) : Type ℓ where
    pub capacity : t.capacity ≡ 0
    pub count : t.count ≡ 0
    pub table : t.table ≡ none

  -- An array of a power of two, in which each key stands once and in its bucket. The capacity follows
  -- the count, and the load stays at three quarters.
  pub record IsFilled (t : HashTable K V) : Type ℓ where
    pub bits : ℕ
    pub bs : List (Chain K V)
    pub power : t.capacity ≡ 2 ^ bits
    pub bounded : t.capacity * 3 ≤ 192 + t.count * 8
    pub here : t.table ≡ some bs
    pub placed : IsPlaced t.capacity bs
    pub wide : 64 ≤ t.capacity
    pub counted : total bs ≡ t.count
    pub load : t.count * 4 < t.capacity * 3 + 4

  abbrev pub IsValid : HashTable K V → Type ℓ
  IsValid t = IsFresh t ⊎ IsFilled t

  pub find-lookup :
      {t : HashTable K V} (f : IsFilled t) (q : K) → find t q ≡ lookup f.bs t.capacity q
  unfolding find find_internal lookup
  find-lookup {t} f q = rw f.here (
      find_chain-find_key q (bucket_index t.capacity) (home t.capacity q) _
        (f.placed.placed (home t.capacity q) (f.placed.in_range q)))

  pub find_fresh : {t : HashTable K V} → IsFresh t → (q : K) → find t q ≡ none
  unfolding find find_internal
  find_fresh f q = rw f.table

  -- A grown table, with room for one more element.
  pub record Grown (t t' : HashTable K V) : Type ℓ where
    pub filled : IsFilled t'
    pub reads : (q : K) → find t' q ≡ find t q
    pub count : t'.count ≡ t.count
    pub room : t'.count * 4 < t'.capacity * 3

  pub fresh_eq : {t : HashTable K V} → IsFresh t → t ≡ reset
  unfolding reset
  fresh_eq f = λ i. record { capacity = f.capacity i; count = f.count i; table = f.table i }

  pub grow_fresh : Grown reset (grow reset)
  unfolding grow reset rehash
  grow_fresh =
      let empty = replicate-IsPlaced {V = V} 64 (λ q. home-lt 6 q (omega arith)) in
      let filled : IsFilled (grow reset) = record {
        bits = 6;
        bs = replicate 64 [];
        power = refl;
        bounded = omega arith;
        here = refl;
        placed = empty;
        wide = omega arith;
        counted = total-replicate (Elem K V) 64;
        load = omega arith;
      } in
      record {
        filled = filled;
        reads = λ q.
            find-lookup filled q
            ∙ lookup-replicate 64 64 q
            ∙ sym (find_fresh (record { capacity = refl; count = refl; table = refl }) q);
        count = refl;
        room = omega arith;
      }

  pub grow_filled :
      {t : HashTable K V}
      → IsFilled t
      → t.capacity * 3 ≤ t.count * 4
      → t.count < 2 ^ 59
      → Grown t (grow t)
  unfolding grow
  grow_filled {t} f full small =
      let m = t.capacity in
      let n : ℕ = if m == 0 then 64 else m * 2 % 2 ^ 64 in
      let doubled : n ≡ m * 2 = ground arith in
      let power : n ≡ 2 ^ suc f.bits = omega (arith, pow-suc 2 f.bits, f.power) in
      let range : (q : K) → home n q < n =
        λ q. rw power (home-lt (suc f.bits) q (omega (arith, power))) in
      let r : Rehashed m n 0 f.bs (replicate n []) (rehash m 0 n f.bs (replicate n [])) =
        rehash-Rehashed m 0 m n f.bs (replicate n []) (omega arith) f.placed
          (replicate-IsPlaced n range) (λ q. lookup-replicate n n q ∙ ground arith) in
      let filled : IsFilled (grow t) = record {
        bits = suc f.bits;
        bs = rehash m 0 n f.bs (replicate n []);
        power = power;
        bounded = omega (arith, doubled);
        here = rw f.here;
        placed = r.valid;
        wide = omega (arith, doubled);
        counted = omega (arith, r.size, total-replicate (Elem K V) n, f.counted);
        load = omega (arith, doubled);
      } in
      record {
        filled = filled;
        reads = λ q. find-lookup filled q ∙ r.reads q ∙ sym (find-lookup f q);
        count = refl;
        room = omega (arith, doubled);
      }
