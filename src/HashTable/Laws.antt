-- ===== src/HashTable/Laws.antt =====
-- The table as a map from keys to values: `Find`, `Insert` with its growth, and writes through the
-- pointers that they return.
use ig_cachesim.Common.{
  ◌+◌, ◌*◌, ◌%◌, ◌^◌, ◌<◌, ◌≡◌, refl, sym, ◌∙◌, Bool, true, false, Option, none, some, [], ◌∷◌,
  arith, leb, if◌then◌else◌, get_or, set, Bool-cases, Option-cases, inl, inr,
}
use ig_cachesim.HashTable.{
  Key, Elem, HashTable, bucket_index, reset, buckets, grow, find, link, insert,
}
use ig_cachesim.HashTable.Chain.{equal_refl}
use ig_cachesim.HashTable.Buckets.{lookup, push-IsPlaced, lookup-push, total-push}
use ig_cachesim.HashTable.Growth.{
  IsFresh, IsFilled, IsValid, Grown, find-lookup, find_fresh, fresh_eq, grow_fresh, grow_filled,
}

abbrev pub value_or {ℓ} : {V : Type ℓ} → V → Option V → V
value_or v none = v
value_or v (some x) = x

abbrev pub is_none {ℓ} : {V : Type ℓ} → Option V → Bool
is_none none = true
is_none (some x) = false

module _ {ℓ} {K V : Type ℓ} ⦃key : Key K⦄ where
  -- A new table is well formed and empty.
  pub reset-IsValid : IsValid {K = K} {V = V} reset × ((q : K) → find {V = V} reset q ≡ none)
  unfolding reset
  reset-IsValid =
      let fresh : IsFresh {K = K} {V = V} reset = record {
        capacity = refl;
        count = refl;
        table = refl;
      } in
      (inl fresh, find_fresh fresh)

  -- The table that `Insert` puts a new element into.
  abbrev ready : HashTable K V → HashTable K V
  ready t = if leb (t.capacity * 3 % 2 ^ 64) (t.count * 4 % 2 ^ 64) then grow t else t

  ready-Grown : (t : HashTable K V) → IsValid t → t.count < 2 ^ 59 → Grown t (ready t)
  ready-Grown t (inl f) small = rw (fresh_eq f) (unfold reset in grow_fresh)
  ready-Grown t (inr f) small =
      elim (Bool-cases (leb (t.capacity * 3 % 2 ^ 64) (t.count * 4 % 2 ^ 64))) [
        | inl e ↦ rw e (grow_filled f (ground arith) small)
        | inr e ↦ rw e (record { filled = f; reads = λ q. refl; count = refl; room = ground arith })
      ]

  -- What `Insert` of a key that is not there makes of a table.
  record Inserted (fresh : V) (t : HashTable K V) (k : K) (r : HashTable K V) : Type ℓ where
    filled : IsFilled r
    reads : (q : K) → find r q ≡ (if key.equal q k then some fresh else find t q)
    count : r.count ≡ t.count + 1

  link-Inserted :
      (fresh : V) (t t' : HashTable K V) (k : K)
      → Grown t t'
      → t.count < 2 ^ 59
      → find t k ≡ none
      → Inserted fresh t k (link fresh t' k)
  unfolding link
  link-Inserted fresh t t' k g small absent =
      let f = g.filled in
      let n = t'.capacity in
      let e : Elem K V = record { hash = key.hash k; key = k; value = fresh } in
      let bs' = set f.bs (bucket_index n e.hash) (e ∷ get_or f.bs (bucket_index n e.hash) []) in
      let here : buckets t'.table ≡ f.bs = rw f.here in
      let gone : lookup f.bs n k ≡ none = sym (find-lookup f k) ∙ g.reads k ∙ absent in
      let wrap : (t'.count + 1) % 2 ^ 64 ≡ t.count + 1 = omega (arith, g.count) in
      let filled : IsFilled (link fresh t' k) = record {
        bits = f.bits;
        bs = bs';
        power = f.power;
        bounded = omega (arith, wrap, g.count, f.bounded);
        here = rw here;
        placed = push-IsPlaced n f.bs f.placed e refl gone;
        wide = f.wide;
        counted = omega (arith, total-push n f.bs f.placed e refl, f.counted, g.count, wrap);
        load = omega (arith, wrap, g.count, g.room);
      } in
      record {
        filled = filled;
        reads = λ q.
            find-lookup filled q
            ∙ lookup-push n f.bs f.placed e refl q
            ∙ rw (← g.reads q, find-lookup f q);
        count = wrap;
      }

  -- A table `r` as a map, against `t` before the key was inserted.
  pub record Inserts (fresh : V) (t : HashTable K V) (k : K) (r : HashTable K V) : Type ℓ where
    pub valid : IsValid r
    pub own : find r k ≡ some (value_or fresh (find t k))
    pub others : (q : K) → key.equal q k ≡ false → find r q ≡ find t q
    pub count : r.count ≡ t.count + (if is_none (find t k) then 1 else 0)

  -- `Insert` into a well-formed table of fewer than 2^59 elements keeps it well formed. The key has
  -- the value it had, or a fresh one; what `Find` gives for every other key stays; the count grows
  -- by one exactly when the key is new.
  pub insert-Inserts :
      (fresh : V) (t : HashTable K V) (k : K)
      → IsValid t
      → t.count < 2 ^ 59
      → Inserts fresh t k (insert fresh t k)
  unfolding insert find
  insert-Inserts fresh t k v small = elim (Option-cases (find t k)) [
    | inr (x, e) ↦
        rw (e, insert)
          (record { valid = v; own = e ∙ rw e; others = λ q n. refl; count = rw e (omega arith) })
    | inl e ↦
        let i = link-Inserted fresh t (ready t) k (ready-Grown t v small) small e in
        rw (e, insert)
          (record {
            valid = inr i.filled;
            own = i.reads k ∙ rw (equal_refl k, e);
            others = λ q n. i.reads q ∙ rw n;
            count = i.count ∙ rw e;
          })
  ]
