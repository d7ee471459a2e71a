-- ===== src/FileData/Sorted.antt =====
-- The lines in their order.
use ig_cachesim.Common.{
  ℕ, ◌+◌, ◌%◌, ◌^◌, ◌≤◌, ◌≡◌, refl, ap, ◌∙◌, All, All-map, true, false, Bool-cases, inl, inr, List,
  [], ◌∷◌, ◌==◌, if◌then◌else◌, arith, ◌||◌,
}
use ig_cachesim.Profile.Rows.{Row, row_stats, has_row, AreRows}
use ig_cachesim.FileData.{int_below, insert_line, sort_lines}
use ig_cachesim.FileData.Lines.{same_line}

-- The value of an `int`, counted from the least one.
abbrev pub int_rank : ℕ → ℕ
int_rank a = (a + 2 ^ 31) % 2 ^ 32

-- The lines come in the order of `int`.
abbrev pub AreInOrder : List (Row ℕ) → Type 0
AreInOrder [] = Unit
AreInOrder (r ∷ rs) = All (λ q. int_rank r.key ≤ int_rank q.key) rs × AreInOrder rs

below : (a b : ℕ) → int_below a b ≡ true → int_rank a ≤ int_rank b
unfolding int_below
below a b e = ground (arith, e)

not_below : (a b : ℕ) → int_below a b ≡ false → int_rank b ≤ int_rank a
unfolding int_below
not_below a b e = ground (arith, e)

insert_line-All :
    (P : Row ℕ → Type 0) (x : Row ℕ) (rs : List (Row ℕ)) → P x → All P rs → All P (insert_line x rs)
unfolding insert_line
insert_line-All P x [] p h = (p, tt)
insert_line-All P x (r ∷ rs) p h = elim (Bool-cases (int_below x.key r.key)) [
  | inl e ↦ rw e (p, h)
  | inr e ↦ rw e (h.0, insert_line-All P x rs p h.1)
]

insert_line-AreInOrder :
    (x : Row ℕ) (rs : List (Row ℕ)) → AreInOrder rs → AreInOrder (insert_line x rs)
unfolding insert_line
insert_line-AreInOrder x [] h = (tt, tt)
insert_line-AreInOrder x (r ∷ rs) h = elim (Bool-cases (int_below x.key r.key)) [
  | inl e ↦
      let le : int_rank x.key ≤ int_rank r.key = below x.key r.key e in
      rw e (
        (
          le,
          All-map {P = λ (q : Row ℕ). int_rank r.key ≤ int_rank q.key} (λ q k. omega (arith, le, k))
              rs h.0,
        ),
        h,
      )
  | inr e ↦ rw e (
    insert_line-All (λ q. int_rank r.key ≤ int_rank q.key) x rs (not_below x.key r.key e) h.0,
    insert_line-AreInOrder x rs h.1,
  )
]

pub sort_lines-AreInOrder : (rs : List (Row ℕ)) → AreInOrder (sort_lines rs)
unfolding sort_lines
sort_lines-AreInOrder [] = tt
sort_lines-AreInOrder (r ∷ rs) = insert_line-AreInOrder r (sort_lines rs) (sort_lines-AreInOrder rs)

insert_line-row_stats :
    (k : ℕ) (x : Row ℕ) (rs : List (Row ℕ))
    → has_row same_line x.key rs ≡ false
    → row_stats same_line k (insert_line x rs)
      ≡ (if x.key == k then x.stats else row_stats same_line k rs)
unfolding insert_line row_stats has_row
insert_line-row_stats k x [] h = refl
insert_line-row_stats k x (r ∷ rs) h = ground (arith, h, insert_line-row_stats k x rs)

insert_line-has_row :
    (k : ℕ) (x : Row ℕ) (rs : List (Row ℕ))
    → has_row same_line k (insert_line x rs) ≡ (x.key == k || has_row same_line k rs)
unfolding insert_line has_row
insert_line-has_row k x [] = refl
insert_line-has_row k x (r ∷ rs) = ground (arith, insert_line-has_row k x rs)

sort_lines-has_row :
    (k : ℕ) (rs : List (Row ℕ)) → has_row same_line k (sort_lines rs) ≡ has_row same_line k rs
unfolding sort_lines has_row
sort_lines-has_row k [] = refl
sort_lines-has_row k (r ∷ rs) =
    insert_line-has_row k r (sort_lines rs) ∙ ap (λ b. r.key == k || b) (sort_lines-has_row k rs)

pub sort_lines-row_stats :
    (k : ℕ) (rs : List (Row ℕ))
    → AreRows same_line rs
    → row_stats same_line k (sort_lines rs) ≡ row_stats same_line k rs
unfolding sort_lines row_stats AreRows
sort_lines-row_stats k [] h = refl
sort_lines-row_stats k (r ∷ rs) h =
    insert_line-row_stats k r (sort_lines rs) (sort_lines-has_row r.key rs ∙ h.0)
    ∙ ap (λ t. if r.key == k then r.stats else t) (sort_lines-row_stats k rs h.1)
