-- ===== src/HashTable/Iteration.antt =====
-- `GenericHashTable::Iterator`: a walk over all elements, bucket by bucket. The pointer `m_Curr` is the
-- chain from its element on, and a null pointer the empty chain.
use mathlib.Core.Option
use ig_cachesim.Common.{
  ℕ, zero, suc, ◌-◌, ◌≤◌, ◌<◌, ◌≡◌, refl, ap, sym, ◌∙◌, Bool, true, false, ◌&&◌, Option, none, some,
  List, [], ◌∷◌, ◌++◌, ◌==◌, ltb, if◌then◌else◌, get_or, drop, length, arith, Bool-cases, inl, inr,
}
use ig_cachesim.HashTable.{Chain, HashTable, buckets}

at_end : (a b : ℕ) → a ≡ b → (a == b && true) ≡ true
at_end a b e = ground (arith, e)

and_false : (b : Bool) → (b && false) ≡ false
and_false true = refl
and_false false = refl

pub record Iterator {ℓ} (K V : Type ℓ) : Type ℓ where
  pub index : ℕ
  pub max : ℕ
  pub table : List (Chain K V)
  pub curr : Chain K V

module _ {ℓ} {K V : Type ℓ} where
  abbrev pub is_null : Chain K V → Bool
  is_null [] = true
  is_null (e ∷ es) = false

  abbrev pub next_of : Chain K V → Chain K V
  next_of [] = []
  next_of (e ∷ es) = es

  -- `while (!m_Curr && m_Index < m_Max)`, with the rounds left.
  unfoldable pub skip : ℕ → Iterator K V → Iterator K V
  skip zero it = it
  skip (suc n) it =
      let rest = skip n (record it { curr = get_or it.table it.index []; index = suc it.index }) in
      if is_null it.curr && ltb it.index it.max then rest else it

  unfoldable pub step : Iterator K V → Iterator K V
  step it = let after = record it { curr = next_of it.curr } in skip (it.max - it.index) after

  -- `Iterator(tab, is_end)`
  unfoldable pub begin : HashTable K V → Iterator K V
  begin t = step (record { index = 0; max = t.capacity; table = buckets t.table; curr = [] })

  unfoldable pub end : HashTable K V → Iterator K V
  end t = record { index = t.capacity; max = t.capacity; table = buckets t.table; curr = [] }

  -- `operator==`, for two iterators of one table of which one is at the end.
  unfoldable pub is_end : Iterator K V → Bool
  is_end it = it.index == it.max && is_null it.curr

  -- `for (it = begin; it != end; ++it)` with the elements that `operator*` reads; `none` means that the
  -- fuel ran out, or that an iterator without an element was read.
  unfoldable pub elements_from : ℕ → Iterator K V → Option (Chain K V)
  elements_from zero it = none
  elements_from (suc fuel) it = elim (is_end it) [
    | true ↦ some []
    | false ↦ elim it.curr [
      | [] ↦ none
      | e ∷ es ↦ Option.map (λ (c : Chain K V). e ∷ c) (elements_from fuel (step it))
    ]
  ]

  unfoldable pub elements : ℕ → HashTable K V → Option (Chain K V)
  elements fuel t = elements_from fuel (begin t)

  -- All chains, one after the other.
  unfoldable pub concat : List (Chain K V) → Chain K V
  concat [] = []
  concat (c ∷ cs) = c ++ concat cs

  -- What an iterator has still to give.
  abbrev pending : Iterator K V → Chain K V
  pending it = it.curr ++ concat (drop it.index it.table)

  -- An iterator of a whole array, with an element or at the end.
  record IsSettled (it : Iterator K V) : Type ℓ where
    width : length it.table ≡ it.max
    inside : it.index ≤ it.max
    settled : is_null it.curr ≡ true → it.index ≡ it.max

  concat-drop :
      (i : ℕ) (bs : List (Chain K V))
      → i < length bs
      → concat (drop i bs) ≡ get_or bs i [] ++ concat (drop (suc i) bs)
  unfolding concat
  concat-drop zero [] h = absurd (omega arith)
  concat-drop zero (c ∷ cs) h = refl
  concat-drop (suc i) [] h = absurd (omega arith)
  concat-drop (suc i) (c ∷ cs) h = concat-drop i cs (omega arith)

  null-append : (c xs : Chain K V) → is_null c ≡ true → c ++ xs ≡ xs
  null-append [] xs h = refl
  null-append (e ∷ es) xs h = cc

  drop_all : (i : ℕ) (bs : List (Chain K V)) → length bs ≤ i → concat (drop i bs) ≡ []
  unfolding concat
  drop_all zero [] h = refl
  drop_all zero (c ∷ cs) h = absurd (omega arith)
  drop_all (suc i) [] h = refl
  drop_all (suc i) (c ∷ cs) h = drop_all i cs (omega arith)

  record Skips (it r : Iterator K V) : Type ℓ where
    valid : IsSettled r
    same : pending r ≡ pending it

  skip-Skips :
      (n : ℕ) (it : Iterator K V)
      → length it.table ≡ it.max
      → it.index ≤ it.max
      → it.max - it.index ≤ n
      → Skips it (skip n it)
  unfolding skip
  skip-Skips zero it w i h = record {
    valid = record { width = w; inside = i; settled = λ z. omega arith };
    same = refl;
  }
  skip-Skips (suc n) it w i h = elim (Bool-cases (is_null it.curr && ltb it.index it.max)) [
    | inl more ↦
        let rec =
          skip-Skips n (record it { curr = get_or it.table it.index []; index = suc it.index }) w
            (ground (arith, more)) (omega arith) in
        rw more (record {
          valid = rec.valid;
          same =
              rec.same
              ∙ sym (concat-drop it.index it.table (ground (arith, more, w)))
              ∙ sym (null-append it.curr (concat (drop it.index it.table)) (ground (arith, more)));
        })
    | inr done ↦ rw done (record {
      valid = record { width = w; inside = i; settled = λ z. ground (arith, done, z) };
      same = refl;
    })
  ]

  abbrev at : ℕ → ℕ → List (Chain K V) → Chain K V → Iterator K V
  at index max table curr = record { index = index; max = max; table = table; curr = curr }

  elements_from-pending :
      (fuel index max : ℕ) (table : List (Chain K V)) (curr : Chain K V)
      → IsSettled (at index max table curr)
      → length (pending (at index max table curr)) < fuel
      → elements_from fuel (at index max table curr) ≡ some (pending (at index max table curr))
  unfolding elements_from is_end step
  elements_from-pending zero index max table curr v h = absurd (omega arith)
  elements_from-pending (suc fuel) index max table [] v h =
      let e : index ≡ max = v.settled refl in
      let out : concat (drop index table) ≡ [] = drop_all index table (omega (arith, v.width, e)) in
      rw (at_end index max e, elements_from) (rw out)
  elements_from-pending (suc fuel) index max table (e ∷ es) v h =
      let s = skip-Skips (max - index) (at index max table es) v.width v.inside (omega arith) in
      let r = skip (max - index) (at index max table es) in
      let rec =
        elements_from-pending fuel r.index r.max r.table r.curr s.valid
          (omega (arith, ap length s.same, h)) in
      rw (and_false (index == max), elements_from)
        (ap (Option.map (λ (c : Chain K V). e ∷ c)) (rec ∙ ap some s.same))

  -- The loop over a table whose array has its capacity ends, given more rounds than elements, and
  -- gives the chains of the array one after the other.
  pub elements-concat :
      (fuel : ℕ) (t : HashTable K V)
      → length (buckets t.table) ≡ t.capacity
      → length (concat (buckets t.table)) < fuel
      → elements fuel t ≡ some (concat (buckets t.table))
  unfolding elements begin step
  elements-concat fuel t w h =
      let s =
        skip-Skips (t.capacity - 0) (at 0 t.capacity (buckets t.table) []) w (omega arith)
          (omega arith) in
      let r = skip (t.capacity - 0) (at 0 t.capacity (buckets t.table) []) in
      elements_from-pending fuel r.index r.max r.table r.curr s.valid
        (omega (arith, ap length s.same, h))
      ∙ ap some s.same
