-- ===== src/TraceData/Encoded.antt =====
-- The symbols and the strings of a file, read back where they were written.
use mathlib.Core.List.{append_assoc}
use ig_cachesim.Common.{
  ℕ, zero, suc, ◌+◌, ◌^◌, ◌<◌, ◌≡◌, All, refl, ap, ap₂, sym, ◌∙◌, List, [], ◌∷◌, ◌++◌, arith,
  length, length-append,
}
use ig_cachesim.Capture.Bytes.{
  le, word, length-le, word-append_zero, word-le, word_at, write_table, read_table,
  read_table-write_table,
}
use ig_cachesim.Capture.Data.{SerializedSymbol, symbol_at}
use ig_cachesim.Capture.Records.{word_fits}
use ig_cachesim.TraceData.{Text, encode_symbol, qstring_at}
use ig_cachesim.TraceData.Overwrite.{length-encode_symbol, unit_bytes}

-- Values that the fields can hold.
pub record FitsSymbol (s : SerializedSymbol) : Type 0 where
  pub rip : s.rip < 2 ^ 64
  pub file_name : s.file_name < 2 ^ 32
  pub symbol_name : s.symbol_name < 2 ^ 32
  pub module_index : s.module_index < 2 ^ 32
  pub line_number : s.line_number < 2 ^ 32
  pub displacement : s.displacement < 2 ^ 32

symbol_at-encode :
    (a c : List ℕ) (s : SerializedSymbol)
    → FitsSymbol s
    → symbol_at (a ++ (encode_symbol s ++ c)) (length a) ≡ s
unfolding symbol_at le
symbol_at-encode a c s h =
    let b0 = le 8 s.rip ++ le 4 0 in
    let b1 = b0 ++ le 4 s.file_name in
    let b2 = b1 ++ le 4 s.symbol_name in
    let b3 = b2 ++ le 4 s.module_index in
    let b4 = b3 ++ le 4 s.line_number in
    let p0 = word-append_zero 8 a (encode_symbol s ++ c) ∙ word-le 8 s.rip _ h.rip in
    let p1 = word_at 4 a b0 s.file_name _ h.file_name in
    let p2 = word_at 4 a b1 s.symbol_name _ h.symbol_name in
    let p3 = word_at 4 a b2 s.module_index _ h.module_index in
    let p4 = word_at 4 a b3 s.line_number _ h.line_number in
    let p5 = word_at 4 a b4 s.displacement c h.displacement in
    λ i. record {
      rip = p0 i;
      file_name = p1 i;
      symbol_name = p2 i;
      module_index = p3 i;
      line_number = p4 i;
      displacement = p5 i;
    }

pub read_symbols :
    (ss : List SerializedSymbol) (a c : List ℕ)
    → All FitsSymbol ss
    → read_table 32 symbol_at (length ss) (a ++ (write_table encode_symbol ss ++ c)) (length a) ≡ ss
read_symbols =
    read_table-write_table 32 encode_symbol symbol_at FitsSymbol (λ s h. length-encode_symbol s)
      symbol_at-encode

-- Code units of a string without its end.
abbrev pub IsText : Text → Type 0
IsText s = All (λ u. (0 < u) × (u < 65536)) s

pub unit_bytes-append : (us vs : List ℕ) → unit_bytes (us ++ vs) ≡ unit_bytes us ++ unit_bytes vs
unfolding write_table
unit_bytes-append [] vs = refl
unit_bytes-append (u ∷ us) vs =
    ap (λ (l : List ℕ). le 2 u ++ l) (unit_bytes-append us vs)
    ∙ sym (append_assoc (le 2 u) (unit_bytes us) (unit_bytes vs))

pub qstring_at-terminated :
    (n : ℕ) (a : List ℕ) (s : Text) (c : List ℕ)
    → IsText s
    → length s < n
    → qstring_at n (a ++ (unit_bytes s ++ (le 2 0 ++ c))) (length a) ≡ s
unfolding qstring_at write_table
qstring_at-terminated zero a s c h k = absurd (omega arith)
qstring_at-terminated (suc n) a [] c h k =
    let e : word 2 (a ++ (le 2 0 ++ c)) (length a) ≡ 0 = word_fits 2 a c 0 (omega arith) in rw e
qstring_at-terminated (suc n) a (u ∷ s) c h k =
    let f = a ++ ((le 2 u ++ unit_bytes s) ++ (le 2 0 ++ c)) in
    let here : f ≡ a ++ (le 2 u ++ (unit_bytes s ++ (le 2 0 ++ c))) = simp append_assoc in
    let there : f ≡ (a ++ le 2 u) ++ (unit_bytes s ++ (le 2 0 ++ c)) = simp append_assoc in
    let e : word 2 f (length a) ≡ u =
      ap (λ (g : List ℕ). word 2 g (length a)) here
      ∙ word_fits 2 a (unit_bytes s ++ (le 2 0 ++ c)) u (omega (arith, h.0.1)) in
    let far : length a + 2 ≡ length (a ++ le 2 u) =
      omega (arith, length-append a (le 2 u), length-le 2 u) in
    let rest : qstring_at n f (length a + 2) ≡ s =
      ap₂ (qstring_at n) there far
      ∙ qstring_at-terminated n (a ++ le 2 u) s c h.1 (omega (arith, k)) in
    rw (e, rest) (ground (arith, h.0.0))
