-- ===== src/TraceData/Sorted.antt =====
-- The sorted symbols against the symbols in the order in which they were resolved.
use ig_cachesim.Common.{
  ℕ, ◌≤◌, ◌≡◌, ◌≢◌, refl, ap, ◌∙◌, All, All-map, some, List, [], ◌∷◌, ◌==◌, leb, if◌then◌else◌,
  Bool-cases, inl, inr, length, arith, suc,
}
use ig_cachesim.Capture.Data.{SerializedSymbol}
use ig_cachesim.Capture.Data.Symbols.{IsSorted, search}
use ig_cachesim.TraceData.{insert_sorted, sort_symbols}

-- No two symbols have one address.
abbrev pub AreDistinct : List SerializedSymbol → Type 0
AreDistinct [] = Unit
AreDistinct (x ∷ xs) = All (λ y. x.rip ≢ y.rip) xs × AreDistinct xs

module _ {κ} (P : SerializedSymbol → Type κ) where
  All-insert_sorted :
      (x : SerializedSymbol) (l : List SerializedSymbol) → P x → All P l → All P (insert_sorted x l)
  unfolding insert_sorted
  All-insert_sorted x [] p h = (p, tt)
  All-insert_sorted x (y ∷ ys) p h = elim (Bool-cases (leb y.rip x.rip)) [
    | inl e ↦ rw e (h.0, All-insert_sorted x ys p h.1)
    | inr e ↦ rw e (p, h)
  ]

  pub All-sort_symbols : (l : List SerializedSymbol) → All P l → All P (sort_symbols l)
  unfolding sort_symbols
  All-sort_symbols [] h = tt
  All-sort_symbols (x ∷ xs) h = All-insert_sorted x (sort_symbols xs) h.0 (All-sort_symbols xs h.1)

insert_sorted-IsSorted :
    (x : SerializedSymbol) (l : List SerializedSymbol) → IsSorted l → IsSorted (insert_sorted x l)
unfolding insert_sorted
insert_sorted-IsSorted x [] h = (tt, tt)
insert_sorted-IsSorted x (y ∷ ys) h = elim (Bool-cases (leb y.rip x.rip)) [
  | inl e ↦ rw e (
    All-insert_sorted (λ z. y.rip ≤ z.rip) x ys (ground (arith, e)) h.0,
    insert_sorted-IsSorted x ys h.1,
  )
  | inr e ↦
      let le : x.rip ≤ y.rip = ground (arith, e) in
      rw e (
        (
          le,
          All-map {P = λ (z : SerializedSymbol). y.rip ≤ z.rip} (λ z k. omega (arith, le, k)) ys
              h.0,
        ),
        h,
      )
]

pub sort_symbols-IsSorted : (l : List SerializedSymbol) → IsSorted (sort_symbols l)
unfolding sort_symbols
sort_symbols-IsSorted [] = tt
sort_symbols-IsSorted (x ∷ xs) =
    insert_sorted-IsSorted x (sort_symbols xs) (sort_symbols-IsSorted xs)

search-insert_sorted :
    (x : SerializedSymbol) (l : List SerializedSymbol) (rip : ℕ)
    → All (λ y. x.rip ≢ y.rip) l
    → search (insert_sorted x l) rip ≡ search (x ∷ l) rip
unfolding insert_sorted search
search-insert_sorted x [] rip h = refl
search-insert_sorted x (y ∷ ys) rip h = ground (arith, search-insert_sorted x ys rip h.1, h.0)

pub search-sort_symbols :
    (l : List SerializedSymbol) (rip : ℕ)
    → AreDistinct l
    → search (sort_symbols l) rip ≡ search l rip
unfolding sort_symbols search
search-sort_symbols [] rip h = refl
search-sort_symbols (x ∷ xs) rip h =
    search-insert_sorted x (sort_symbols xs) rip (All-sort_symbols (λ y. x.rip ≢ y.rip) xs h.0)
    ∙ ap (λ r. if x.rip == rip then some x else r) (search-sort_symbols xs rip h.1)

length-insert_sorted :
    (x : SerializedSymbol) (l : List SerializedSymbol) → length (insert_sorted x l) ≡ suc (length l)
unfolding insert_sorted
length-insert_sorted x [] = refl
length-insert_sorted x (y ∷ ys) = ground (arith, length-insert_sorted x ys)

pub length-sort_symbols : (l : List SerializedSymbol) → length (sort_symbols l) ≡ length l
unfolding sort_symbols
length-sort_symbols [] = refl
length-sort_symbols (x ∷ xs) =
    length-insert_sorted x (sort_symbols xs) ∙ ap suc (length-sort_symbols xs)
