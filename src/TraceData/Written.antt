-- ===== src/TraceData/Written.antt =====
-- The file that `symbolsResolved` leaves, as its parts in their order.
use mathlib.Core.List.{append_assoc, append-nil}
use ig_cachesim.Common.{
  ℕ, ◌+◌, ◌*◌, ◌%◌, ◌^◌, ◌≤◌, ◌<◌, ◌≡◌, ap, ap₂, sym, ◌∙◌, List, [], ◌++◌, arith, length,
  length-append, length-replicate, take, drop, take_all, length-take, length-drop,
}
use ig_cachesim.Stacks.{copy}
use ig_cachesim.Capture.{File, update}
use ig_cachesim.Capture.Bytes.{le, length-le}
use ig_cachesim.TraceData.{ResolveResult, resize, new_header, symbols_resolved}
use ig_cachesim.TraceData.Overwrite.{
  symbol_bytes, unit_bytes, length-symbol_bytes, length-unit_bytes, copy_over, split_at, zeros,
  zeros-append, take-front, update_over,
}

-- A file by its header up to the words of the symbols, those words, and the rest.
pub record Header (f : File) : Type 0 where
  pub front : List ℕ
  pub old1 : List ℕ
  pub old2 : List ℕ
  pub old3 : List ℕ
  pub rest : List ℕ
  pub split : f ≡ front ++ (old1 ++ (old2 ++ (old3 ++ rest)))
  pub length_front : length front ≡ 36
  pub length_old1 : length old1 ≡ 4
  pub length_old2 : length old2 ≡ 4
  pub length_old3 : length old3 ≡ 4

pub header_parts : (f : File) → 48 ≤ length f → Header f
header_parts f h =
    let g1 = drop 36 f in
    let g2 = drop 4 g1 in
    let g3 = drop 4 g2 in
    let w1 = length-drop 36 f in
    let w2 = length-drop 4 g1 in
    let w3 = length-drop 4 g2 in
    record {
      front = take 36 f;
      old1 = take 4 g1;
      old2 = take 4 g2;
      old3 = take 4 g3;
      rest = drop 4 g3;
      split =
          sym (split_at 36 f)
          ∙ ap (λ (l : List ℕ). take 36 f ++ l)
              (sym (split_at 4 g1)
                ∙ ap (λ (l : List ℕ). take 4 g1 ++ l)
                    (sym (split_at 4 g2)
                      ∙ ap (λ (l : List ℕ). take 4 g2 ++ l) (sym (split_at 4 g3))));
      length_front = omega (arith, length-take 36 f, h);
      length_old1 = omega (arith, length-take 4 g1, w1, h);
      length_old2 = omega (arith, length-take 4 g2, w1, w2, h);
      length_old3 = omega (arith, length-take 4 g3, w1, w2, w3, h);
    }

module _ (f : File) (h : Header f) where
  new_header-parts : (o c t : ℕ) → new_header o c t f ≡ h.front ++ (le 4 o ++ (le 4 c ++ le 4 t))
  unfolding new_header
  new_header-parts o c t =
      let old = h.front ++ (h.old1 ++ (h.old2 ++ h.old3)) in
      let width : length old ≡ 48 = omega (
        arith,
        length-append h.front (h.old1 ++ (h.old2 ++ h.old3)),
        length-append h.old1 (h.old2 ++ h.old3),
        length-append h.old2 h.old3,
        h.length_front,
        h.length_old1,
        h.length_old2,
        h.length_old3,
      ) in
      let same : f ≡ old ++ h.rest = h.split ∙ simp append_assoc in
      let first : take 48 f ≡ old =
        ap₂ (λ (n : ℕ) (l : List ℕ). take n l) (sym width) same ∙ take-front old h.rest in
      let w40 : length (h.front ++ le 4 o) ≡ 40 =
        omega (arith, length-append h.front (le 4 o), length-le 4 o, h.length_front) in
      let w44 : length (h.front ++ (le 4 o ++ le 4 c)) ≡ 44 = omega (
        arith,
        length-append h.front (le 4 o ++ le 4 c),
        length-append (le 4 o) (le 4 c),
        length-le 4 o,
        length-le 4 c,
        h.length_front,
      ) in
      let step36 : update 36 o (take 48 f) ≡ h.front ++ (le 4 o ++ (h.old2 ++ h.old3)) =
        ap (update 36 o) first
        ∙ update_over h.front h.old1 (le 4 o) (h.old2 ++ h.old3) 36 o h.length_front
            h.length_old1 in
      let step40 : update 40 c (update 36 o (take 48 f))
          ≡ (h.front ++ le 4 o) ++ (le 4 c ++ h.old3) =
        ap (update 40 c) (step36 ∙ sym (append_assoc h.front (le 4 o) (h.old2 ++ h.old3)))
        ∙ update_over (h.front ++ le 4 o) h.old2 (le 4 c) h.old3 40 c w40 h.length_old2 in
      let apart : (h.front ++ le 4 o) ++ (le 4 c ++ h.old3)
          ≡ (h.front ++ (le 4 o ++ le 4 c)) ++ (h.old3 ++ []) =
        simp (append_assoc, append-nil) in
      let together : (h.front ++ (le 4 o ++ le 4 c)) ++ (le 4 t ++ [])
          ≡ h.front ++ (le 4 o ++ (le 4 c ++ le 4 t)) =
        simp (append_assoc, append-nil) in
      ap (update 44 t) (step40 ∙ apart)
      ∙ update_over (h.front ++ (le 4 o ++ le 4 c)) h.old3 (le 4 t) [] 44 t w44 h.length_old3
      ∙ together

  -- The file up to its new parts.
  abbrev pub body : ℕ → ℕ → ℕ → File
  body o c t = h.front ++ (le 4 o ++ (le 4 c ++ (le 4 t ++ h.rest)))

  pub length-body : (o c t : ℕ) → length (body o c t) ≡ length f
  length-body o c t = omega (
    arith,
    ap length h.split,
    length-append h.front (le 4 o ++ (le 4 c ++ (le 4 t ++ h.rest))),
    length-append (le 4 o) (le 4 c ++ (le 4 t ++ h.rest)),
    length-append (le 4 c) (le 4 t ++ h.rest),
    length-append (le 4 t) h.rest,
    length-append h.front (h.old1 ++ (h.old2 ++ (h.old3 ++ h.rest))),
    length-append h.old1 (h.old2 ++ (h.old3 ++ h.rest)),
    length-append h.old2 (h.old3 ++ h.rest),
    length-append h.old3 h.rest,
    length-le 4 o,
    length-le 4 c,
    length-le 4 t,
    h.length_old1,
    h.length_old2,
    h.length_old3,
  )

  resize-zeros : (n : ℕ) → resize (length f + n) f ≡ f ++ zeros n
  unfolding resize
  resize-zeros n =
      ap₂ (λ (l : List ℕ) (k : ℕ). l ++ zeros k) (take_all (length f + n) f (omega arith))
        (omega arith)

  header_over :
      (o c t : ℕ) (tail : List ℕ) → copy (f ++ tail) 0 (new_header o c t f) ≡ body o c t ++ tail
  header_over o c t tail =
      let old = h.front ++ (h.old1 ++ (h.old2 ++ h.old3)) in
      let new = h.front ++ (le 4 o ++ (le 4 c ++ le 4 t)) in
      let width : length new ≡ length old = omega (
        arith,
        length-append h.front (le 4 o ++ (le 4 c ++ le 4 t)),
        length-append (le 4 o) (le 4 c ++ le 4 t),
        length-append (le 4 c) (le 4 t),
        length-append h.front (h.old1 ++ (h.old2 ++ h.old3)),
        length-append h.old1 (h.old2 ++ h.old3),
        length-append h.old2 h.old3,
        length-le 4 o,
        length-le 4 c,
        length-le 4 t,
        h.length_old1,
        h.length_old2,
        h.length_old3,
      ) in
      let before : f ++ tail ≡ old ++ (h.rest ++ tail) =
        ap (λ (l : List ℕ). l ++ tail) h.split ∙ (simp append_assoc) in
      let after : new ++ (h.rest ++ tail) ≡ body o c t ++ tail = simp append_assoc in
      ap₂ (λ (l v : List ℕ). copy l 0 v) before (new_header-parts o c t)
      ∙ copy_over [] old new (h.rest ++ tail) width
      ∙ after

  -- The sizes of the new parts, as the header has them.
  pub symbols_resolved-parts :
      (r : ResolveResult)
      → length f + length r.symbols * 32 + length r.string_data * 2 < 2 ^ 32
      → symbols_resolved r f
        ≡ body (length f) (length r.symbols) (length f + length r.symbols * 32)
          ++ (symbol_bytes r.symbols ++ unit_bytes r.string_data)
  unfolding symbols_resolved
  symbols_resolved-parts r small =
      let n = length r.symbols in
      let m = length r.string_data in
      let e1 : length f % 2 ^ 32 ≡ length f = omega (arith, small) in
      let e2 : n % 2 ^ 32 ≡ n = omega (arith, small) in
      let e3 : (length f + n * 32) % 2 ^ 32 ≡ length f + n * 32 = omega (arith, small) in
      let e4 : (length f + n * 32 + m * 2) % 2 ^ 32 ≡ length f + (n * 32 + m * 2) =
        omega (arith, small) in
      let s = symbol_bytes r.symbols in
      let u = unit_bytes r.string_data in
      let room : resize (length f + (n * 32 + m * 2)) f ≡ f ++ (zeros (n * 32) ++ zeros (m * 2)) =
        resize-zeros (n * 32 + m * 2)
        ∙ ap (λ (l : List ℕ). f ++ l) (zeros-append (n * 32) (m * 2)) in
      let w1 : length s ≡ length (zeros (n * 32)) =
        omega (arith, length-symbol_bytes r.symbols, length-replicate {A = ℕ} (n * 32) 0) in
      let one : copy (resize (length f + (n * 32 + m * 2)) f) (length f) s
          ≡ (f ++ s) ++ (zeros (m * 2) ++ []) =
        ap (λ (l : List ℕ). copy l (length f) s) room
        ∙ copy_over f (zeros (n * 32)) s (zeros (m * 2)) w1
        ∙ (simp (append_assoc, append-nil)) in
      let w2 : length u ≡ length (zeros (m * 2)) =
        omega (arith, length-unit_bytes r.string_data, length-replicate {A = ℕ} (m * 2) 0) in
      let at : length f + n * 32 ≡ length (f ++ s) =
        omega (arith, length-append f s, length-symbol_bytes r.symbols) in
      let two : copy (copy (resize (length f + (n * 32 + m * 2)) f) (length f) s)
            (length f + n * 32) u
          ≡ f ++ (s ++ u) =
        ap₂ (λ (l : List ℕ) (k : ℕ). copy l k u) one at
        ∙ copy_over (f ++ s) (zeros (m * 2)) u [] w2
        ∙ (simp (append_assoc, append-nil)) in
      rw (e1, e2, e3, e4)
        (ap (λ (l : List ℕ). copy l 0 (new_header (length f) n (length f + n * 32) f)) two
          ∙ header_over (length f) n (length f + n * 32) (s ++ u))
