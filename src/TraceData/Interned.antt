-- ===== src/TraceData/Interned.antt =====
-- `intern_qstring` of UI/TraceData.cpp: where the strings of the symbols stand.
use mathlib.Core.Path.{subst}
use mathlib.Core.Option.{some-injective}
use mathlib.Core.List.{append_assoc, append-nil}
use ig_cachesim.Common.{
  ℕ, ◌+◌, ◌%◌, ◌^◌, ◌≤◌, ◌<◌, ◌≡◌, refl, ap, ap₂, sym, ◌∙◌, All, All-map, true, some, List, [], ◌∷◌,
  ◌++◌, ◌==◌, Bool-cases, Option-cases, inl, inr, length, length-append, arith,
}
use ig_cachesim.TraceData.{Text, same_text, Strings, find_string, intern_qstring}

pub same_text-eq : (s t : Text) → same_text s t ≡ true → s ≡ t
same_text-eq [] [] h = refl
same_text-eq [] (d ∷ ds) h = cc
same_text-eq (c ∷ cs) [] h = cc
same_text-eq (c ∷ cs) (d ∷ ds) h = elim (Bool-cases (c == d)) [
  | inl e ↦ ap₂ (λ (x : ℕ) (xs : Text). x ∷ xs) (ground (arith, e)) (same_text-eq cs ds (rw e at h))
  | inr e ↦ cc
]

pub same_text_refl : (s : Text) → same_text s s ≡ true
same_text_refl [] = refl
same_text_refl (c ∷ cs) = ground (arith, same_text_refl cs)

-- `data` holds the string at an offset, with its end.
pub record Holds (units : List ℕ) (s : Text) (offset : ℕ) : Type 0 where
  pub front : List ℕ
  pub back : List ℕ
  pub split : units ≡ front ++ (s ++ (0 ∷ back))
  pub place : length front ≡ offset

-- What is held stays where more is appended.
pub Holds-append :
    (units more : List ℕ) (s : Text) (offset : ℕ)
    → Holds units s offset
    → Holds (units ++ more) s offset
Holds-append units more s offset h = record {
  front = h.front;
  back = h.back ++ more;
  split =
      ap (λ (l : List ℕ). l ++ more) h.split
      ∙ append_assoc h.front (s ++ (0 ∷ h.back)) more
      ∙ ap (λ (l : List ℕ). h.front ++ l) (append_assoc s (0 ∷ h.back) more);
  place = h.place;
}

-- Every string that is looked up is held.
abbrev pub IsInterned : Strings → Type 0
IsInterned st = All (λ e. Holds st.string_data e.0 e.1) st.string_lookup

-- The strings `r` after some of `st`.
pub record Extends (st r : Strings) : Type 0 where
  pub more : List ℕ
  pub extended : r.string_data ≡ st.string_data ++ more

find_string-Holds :
    (units : List ℕ) (es : List (Text × ℕ)) (s : Text) (offset : ℕ)
    → All (λ e. Holds units e.0 e.1) es
    → find_string es s ≡ some offset
    → Holds units s offset
unfolding find_string
find_string-Holds units [] s offset h e = cc
find_string-Holds units (x ∷ es) s offset h e = elim (Bool-cases (same_text x.0 s)) [
  | inl p ↦
      let at : some x.1 ≡ some offset = rw p at e in
      let same = same_text-eq x.0 s p in
      subst (λ o. Holds units s o) (some-injective x.1 offset at)
        (subst (λ t. Holds units t x.1) same h.0)
  | inr p ↦ find_string-Holds units es s offset h.1 (rw p at e)
]

pub record Interns (s : Text) (st : Strings) (r : ℕ × Strings) : Type 0 where
  pub valid : IsInterned r.1
  pub held : Holds r.1.string_data s r.0
  pub extends : Extends st r.1
  pub bound : length r.1.string_data ≤ length st.string_data + length s + 1

pub intern_qstring-Interns :
    (s : Text) (st : Strings)
    → IsInterned st
    → length st.string_data < 2 ^ 32
    → Interns s st (intern_qstring s st)
unfolding intern_qstring
intern_qstring-Interns s st v small = elim (Option-cases (find_string st.string_lookup s)) [
  | inl n ↦
      let o : length st.string_data % 2 ^ 32 ≡ length st.string_data = omega (arith, small) in
      let new = st.string_data ++ (s ++ (0 ∷ [])) in
      let here : Holds new s (length st.string_data % 2 ^ 32) = record {
        front = st.string_data;
        back = [];
        split = refl;
        place = sym o;
      } in
      rw (n, intern_qstring)
        (record {
          valid = (
            here,
            All-map {P = λ (e : Text × ℕ). Holds st.string_data e.0 e.1}
                (λ e h. Holds-append st.string_data (s ++ (0 ∷ [])) e.0 e.1 h) st.string_lookup v,
          );
          held = here;
          extends = record { more = s ++ (0 ∷ []); extended = refl };
          bound =
              omega (arith, length-append st.string_data (s ++ (0 ∷ [])), length-append s (0 ∷ []));
        })
  | inr w ↦
      rw (w.1, intern_qstring)
        (record {
          valid = v;
          held = find_string-Holds st.string_data st.string_lookup s w.0 v w.1;
          extends = record { more = []; extended = sym (append-nil st.string_data) };
          bound = omega arith;
        })
]

pub Holds-Extends :
    (st r : Strings) (s : Text) (offset : ℕ)
    → Extends st r
    → Holds st.string_data s offset
    → Holds r.string_data s offset
Holds-Extends st r s offset e h =
    subst (λ units. Holds units s offset) (sym e.extended)
      (Holds-append st.string_data e.more s offset h)

pub Extends-trans : (a b c : Strings) → Extends a b → Extends b c → Extends a c
Extends-trans a b c e f = record {
  more = e.more ++ f.more;
  extended =
      f.extended
      ∙ ap (λ (l : List ℕ). l ++ f.more) e.extended
      ∙ append_assoc a.string_data e.more f.more;
}
