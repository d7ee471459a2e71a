-- ===== src/TraceData/Overwrite.antt =====
-- Writes over parts of a file, and the sizes of the parts that are new.
use ig_cachesim.Common.{
  ℕ, zero, suc, ◌+◌, ◌*◌, ◌≡◌, refl, ap, sym, ◌∙◌, List, [], ◌∷◌, ◌++◌, arith, length,
  length-append, take, drop, replicate, set,
}
use ig_cachesim.Stacks.{copy}
use ig_cachesim.Capture.{update}
use ig_cachesim.Capture.Bytes.{le, length-le, write_table}
use ig_cachesim.Capture.Data.{SerializedSymbol}
use ig_cachesim.TraceData.{encode_symbol}

pub length-encode_symbol : (s : SerializedSymbol) → length (encode_symbol s) ≡ 32
unfolding le
length-encode_symbol s = refl

abbrev pub symbol_bytes : List SerializedSymbol → List ℕ
symbol_bytes ss = write_table encode_symbol ss

abbrev pub unit_bytes : List ℕ → List ℕ
unit_bytes us = write_table (le 2) us

pub length-symbol_bytes : (ss : List SerializedSymbol) → length (symbol_bytes ss) ≡ length ss * 32
unfolding write_table
length-symbol_bytes [] = omega arith
length-symbol_bytes (s ∷ ss) = omega (
  arith,
  length-append (encode_symbol s) (symbol_bytes ss),
  length-encode_symbol s,
  length-symbol_bytes ss,
)

pub length-unit_bytes : (us : List ℕ) → length (unit_bytes us) ≡ length us * 2
unfolding write_table
length-unit_bytes [] = omega arith
length-unit_bytes (u ∷ us) =
    omega (arith, length-append (le 2 u) (unit_bytes us), length-le 2 u, length-unit_bytes us)

copy-cons : (z : ℕ) (l : List ℕ) (i : ℕ) (v : List ℕ) → copy (z ∷ l) (suc i) v ≡ z ∷ copy l i v
unfolding copy
copy-cons z l i [] = refl
copy-cons z l i (x ∷ v) = copy-cons z (set l i x) (suc i) v

-- A write over a part of the same length.
pub copy_over :
    (a b v c : List ℕ) → length v ≡ length b → copy (a ++ (b ++ c)) (length a) v ≡ a ++ (v ++ c)
unfolding copy
copy_over [] [] [] c h = refl
copy_over [] [] (x ∷ v) c h = absurd (omega (arith, h))
copy_over [] (y ∷ b) [] c h = absurd (omega (arith, h))
copy_over [] (y ∷ b) (x ∷ v) c h =
    copy-cons x (b ++ c) 0 v ∙ ap (λ (l : List ℕ). x ∷ l) (copy_over [] b v c (omega (arith, h)))
copy_over (z ∷ a) b v c h =
    copy-cons z (a ++ (b ++ c)) (length a) v ∙ ap (λ (l : List ℕ). z ∷ l) (copy_over a b v c h)

pub split_at : (n : ℕ) (f : List ℕ) → take n f ++ drop n f ≡ f
split_at zero f = refl
split_at (suc n) [] = refl
split_at (suc n) (x ∷ f) = ap (λ (l : List ℕ). x ∷ l) (split_at n f)

abbrev pub zeros : ℕ → List ℕ
zeros n = replicate n 0

pub zeros-append : (m n : ℕ) → zeros (m + n) ≡ zeros m ++ zeros n
zeros-append zero n = ap zeros (omega arith)
zeros-append (suc m) n =
    let e : suc m + n ≡ suc (m + n) = omega arith in
    ap zeros e ∙ ap (λ (l : List ℕ). 0 ∷ l) (zeros-append m n)

pub take-front : (a b : List ℕ) → take (length a) (a ++ b) ≡ a
take-front [] b = refl
take-front (x ∷ a) b = ap (λ (l : List ℕ). x ∷ l) (take-front a b)

-- A word in place of another.
pub update_over :
    (a b v c : List ℕ) (o w : ℕ)
    → length a ≡ o
    → length b ≡ 4
    → update o w (a ++ (b ++ c)) ≡ a ++ (le 4 w ++ c)
unfolding update
update_over a b v c o w h k =
    ap (λ n. copy (a ++ (b ++ c)) n (le 4 w)) (sym h)
    ∙ copy_over a b (le 4 w) c (omega (arith, k, length-le 4 w))
