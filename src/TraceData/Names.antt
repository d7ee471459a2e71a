-- ===== src/TraceData/Names.antt =====
-- What is looked up in a file after `symbolResolveTask` and `symbolsResolved`.
use mathlib.Core.List.{append_assoc}
use ig_cachesim.Common.{
  ℕ, ◌+◌, ◌*◌, ◌^◌, ◌<◌, ◌≡◌, All, refl, ap, ap₂, sym, ◌∙◌, List, ◌∷◌, ◌++◌, arith, length,
  length-append,
}
use ig_cachesim.Capture.{File}
use ig_cachesim.Capture.Bytes.{le, word, length-le, read_table, write_table}
use ig_cachesim.Capture.Data.{SerializedSymbol, symbol_at, symbol_offset, symbol_count, get_symbols}
use ig_cachesim.Capture.Records.{word_fits}
use ig_cachesim.Capture.RoundTrip.{table_read}
use ig_cachesim.TraceData.{Text, symbol_text_offset, qstring_at, symbol_string}
use ig_cachesim.TraceData.Interned.{Holds}
use ig_cachesim.TraceData.Overwrite.{
  symbol_bytes, unit_bytes, length-symbol_bytes, length-unit_bytes,
}
use ig_cachesim.TraceData.Encoded.{
  FitsSymbol, read_symbols, IsText, unit_bytes-append, qstring_at-terminated,
}
use ig_cachesim.TraceData.Written.{Header, body, length-body}

-- A file with a header `h`, after the symbols `ss` and the strings `us` have been written.
module _ (f : File) (h : Header f) (ss : List SerializedSymbol) (us : List ℕ)
    (small : length f + length ss * 32 + length us * 2 < 2 ^ 32) where
  abbrev pub text : ℕ
  text = length f + length ss * 32

  abbrev front_part : File
  front_part = body f h (length f) (length ss) text

  abbrev pub written : File
  written = front_part ++ (symbol_bytes ss ++ unit_bytes us)

  symbol_offset-written : symbol_offset written ≡ length f
  unfolding symbol_offset
  symbol_offset-written =
      let same : written
          ≡ h.front
            ++ (le 4 (length f)
                ++ ((le 4 (length ss) ++ (le 4 text ++ h.rest))
                    ++ (symbol_bytes ss ++ unit_bytes us))) =
        simp append_assoc in
      ap₂ (word 4) same (sym h.length_front)
      ∙ word_fits 4 h.front _ (length f) (omega (arith, small))

  pub symbol_count-written : symbol_count written ≡ length ss
  unfolding symbol_count
  symbol_count-written =
      let a = h.front ++ le 4 (length f) in
      let same : written
          ≡ a
            ++ (le 4 (length ss) ++ ((le 4 text ++ h.rest) ++ (symbol_bytes ss ++ unit_bytes us))) =
        simp append_assoc in
      let at : 40 ≡ length a =
        omega (
          arith,
          length-append h.front (le 4 (length f)),
          length-le 4 (length f),
          h.length_front,
        ) in
      ap₂ (word 4) same at ∙ word_fits 4 a _ (length ss) (omega (arith, small))

  symbol_text_offset-written : symbol_text_offset written ≡ text
  unfolding symbol_text_offset
  symbol_text_offset-written =
      let a = h.front ++ (le 4 (length f) ++ le 4 (length ss)) in
      let same : written ≡ a ++ (le 4 text ++ (h.rest ++ (symbol_bytes ss ++ unit_bytes us))) =
        simp append_assoc in
      let at : 44 ≡ length a = omega (
        arith,
        length-append h.front (le 4 (length f) ++ le 4 (length ss)),
        length-append (le 4 (length f)) (le 4 (length ss)),
        length-le 4 (length f),
        length-le 4 (length ss),
        h.length_front,
      ) in
      ap₂ (word 4) same at ∙ word_fits 4 a _ text (omega (arith, small))

  pub get_symbols-written : All FitsSymbol ss → get_symbols written ≡ ss
  unfolding get_symbols
  get_symbols-written fits =
      table_read (λ n. read_table 32 symbol_at n) written written front_part ss _ _ refl
        symbol_count-written
        (symbol_offset-written ∙ sym (length-body f h (length f) (length ss) text))
        (read_symbols ss front_part (unit_bytes us) fits)

  pub length-written : length written ≡ text + length us * 2
  length-written = omega (
    arith,
    length-append front_part (symbol_bytes ss ++ unit_bytes us),
    length-append (symbol_bytes ss) (unit_bytes us),
    length-body f h (length f) (length ss) text,
    length-symbol_bytes ss,
    length-unit_bytes us,
  )

  pub symbol_string-written :
      (s : Text) (offset : ℕ) → IsText s → Holds us s offset → symbol_string written offset ≡ s
  unfolding symbol_string
  symbol_string-written s offset t v =
      let a = (front_part ++ symbol_bytes ss) ++ unit_bytes v.front in
      let units : unit_bytes us
          ≡ unit_bytes v.front ++ (unit_bytes s ++ (le 2 0 ++ unit_bytes v.back)) =
        ap unit_bytes v.split
        ∙ unit_bytes-append v.front (s ++ (0 ∷ v.back))
        ∙ ap (λ (l : List ℕ). unit_bytes v.front ++ l)
            (unit_bytes-append s (0 ∷ v.back) ∙ (unfold write_table in refl)) in
      let same : written ≡ a ++ (unit_bytes s ++ (le 2 0 ++ unit_bytes v.back)) =
        ap (λ (l : List ℕ). front_part ++ (symbol_bytes ss ++ l)) units ∙ (simp append_assoc) in
      let at : symbol_text_offset written + 2 * offset ≡ length a = omega (
        arith,
        symbol_text_offset-written,
        v.place,
        length-append (front_part ++ symbol_bytes ss) (unit_bytes v.front),
        length-append front_part (symbol_bytes ss),
        length-body f h (length f) (length ss) text,
        length-symbol_bytes ss,
        length-unit_bytes v.front,
      ) in
      let enough : length s < length written = omega (
        arith,
        length-written,
        ap length v.split,
        length-append v.front (s ++ (0 ∷ v.back)),
        length-append s (0 ∷ v.back),
      ) in
      ap₂ (qstring_at (length written)) same at
      ∙ qstring_at-terminated (length written) a s (unit_bytes v.back) t enough
