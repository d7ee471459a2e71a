-- ===== src/FlatModel/Indexed.antt =====
-- The rows and the index of their names, against rows that are added up by name.
use mathlib.Core.Path.{subst}
use ig_cachesim.Common.{
  ℕ, suc, ◌≡◌, refl, ap, sym, ◌∙◌, false, Bool-cases, Option-cases, inl, inr, Option, none, some,
  List, [], ◌∷◌, ◌++◌, if◌then◌else◌, length,
}
use ig_cachesim.TraceData.{Text, same_text, find_string}
use ig_cachesim.TreeModel.Paths.{same_text_apart}
use ig_cachesim.Profile.{no_counters, add_stats}
use ig_cachesim.Profile.Rows.{Row, tally}
use ig_cachesim.FlatModel.{FlatRows, add_at, row_of}

next : Option ℕ → Option ℕ
next none = none
next (some i) = some (suc i)

-- The place of the first row of a name.
unfoldable pub index_of : Text → List (Row Text) → Option ℕ
unfolding next
index_of name [] = none
index_of name (r ∷ rs) = if same_text r.key name then some 0 else next (index_of name rs)

-- The index gives the place of every name.
unfoldable pub IsIndexed : FlatRows → Type 0
IsIndexed st = (name : Text) → find_string st.symbol_name_to_row name ≡ index_of name st.rows

module _ (name : Text) (ss : List ℕ) where
  -- The row of the name, and the index, if the name has a row; and if it has none.
  Found : List (Row Text) → Option ℕ → Type 0
  Found rows none =
      (add_at (length rows) ss (rows ++ (record { key = name; stats = no_counters } ∷ []))
        ≡ tally same_text name ss rows)
      × ((q : Text)
          → index_of q (tally same_text name ss rows)
            ≡ (if same_text name q then some (length rows) else index_of q rows))
  Found rows (some i) =
      (add_at i ss rows ≡ tally same_text name ss rows)
      × ((q : Text) → index_of q (tally same_text name ss rows) ≡ index_of q rows)

  tally_other :
      (r : Row Text) (rs : List (Row Text))
      → same_text r.key name ≡ false
      → tally same_text name ss (r ∷ rs) ≡ r ∷ tally same_text name ss rs
  unfolding tally
  tally_other r rs e = rw e

  found_later :
      (r : Row Text) (rs : List (Row Text)) (o : Option ℕ)
      → same_text r.key name ≡ false
      → Found rs o
      → Found (r ∷ rs) (next o)
  unfolding Found index_of add_at next
  found_later r rs none e h =
      let a = tally_other r rs e in
      (
        ap (λ l. r ∷ l) h.0 ∙ sym a,
        λ q. ap (index_of q) a ∙ elim (Bool-cases (same_text r.key q)) [
          | inl k ↦ rw (k, same_text_apart r.key name q e k)
          | inr k ↦ rw k (
              ap next (h.1 q)
              ∙ elim (Bool-cases (same_text name q)) [ inl m ↦ rw m | inr m ↦ rw m ])
        ],
      )
  found_later r rs (some i) e h =
      let a = tally_other r rs e in
      (
        ap (λ l. r ∷ l) h.0 ∙ sym a,
        λ q. ap (index_of q) a ∙ ap (λ o. if same_text r.key q then some 0 else next o) (h.1 q),
      )

  found : (rows : List (Row Text)) → Found rows (index_of name rows)
  unfolding Found index_of add_at tally next
  found [] = (refl, λ q. refl)
  found (r ∷ rs) = elim (Bool-cases (same_text r.key name)) [
    | inl e ↦
        let a : tally same_text name ss (r ∷ rs)
            ≡ record { key = r.key; stats = add_stats r.stats ss } ∷ rs =
          rw e in
        let first : index_of name (r ∷ rs) ≡ some 0 = rw e in
        subst (Found (r ∷ rs)) (sym first) (sym a, λ q. ap (index_of q) a)
    | inr e ↦
        let later : index_of name (r ∷ rs) ≡ next (index_of name rs) = rw e in
        subst (Found (r ∷ rs)) (sym later) (found_later r rs (index_of name rs) e (found rs))
  ]

  -- One round of the loop, with the index.
  abbrev pub step : FlatRows → FlatRows
  step st = let (row, st1) = row_of name st in record st1 { rows = add_at row ss st1.rows }

  step_found :
      (st : FlatRows) (i : ℕ)
      → find_string st.symbol_name_to_row name ≡ some i
      → step st ≡ record st { rows = add_at i ss st.rows }
  unfolding row_of
  step_found st i e = rw (e, row_of)

  step_new :
      (st : FlatRows)
      → find_string st.symbol_name_to_row name ≡ none
      → step st ≡ record {
        rows =
            add_at
              (length st.rows)
              ss
              (st.rows ++ (record { key = name; stats = no_counters } ∷ []));
        symbol_name_to_row = (name, length st.rows) ∷ st.symbol_name_to_row;
      }
  unfolding row_of
  step_new st e = rw (e, row_of)

  pub record Steps (st o : FlatRows) : Type 0 where
    pub rows : o.rows ≡ tally same_text name ss st.rows
    pub indexed : IsIndexed o

  pub step-Steps : (st : FlatRows) → IsIndexed st → Steps st (step st)
  unfolding IsIndexed Found find_string
  step-Steps st v = elim (Option-cases (find_string st.symbol_name_to_row name)) [
    | inl n ↦
        let h : Found st.rows none = subst (Found st.rows) (sym (v name) ∙ n) (found st.rows) in
        subst (Steps st) (sym (step_new st n)) (record {
          rows = h.0;
          indexed = λ q.
              ap (λ o. if same_text name q then some (length st.rows) else o) (v q)
              ∙ sym (h.1 q)
              ∙ ap (index_of q) (sym h.0);
        })
    | inr (i, e) ↦
        let h : Found st.rows (some i) = subst (Found st.rows) (sym (v name) ∙ e) (found st.rows) in
        subst (Steps st) (sym (step_found st i e))
          (record { rows = h.0; indexed = λ q. v q ∙ sym (h.1 q) ∙ ap (index_of q) (sym h.0) })
  ]
