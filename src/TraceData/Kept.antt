-- ===== src/TraceData/Kept.antt =====
-- `symbolsResolved` of UI/TraceData.cpp: the tables that a capture had before.
use mathlib.Core.Path.{subst}
use mathlib.Core.List.{append_assoc}
use ig_cachesim.Common.{
  ℕ, zero, suc, ◌+◌, ◌-◌, ◌*◌, ◌^◌, ◌≤◌, ◌<◌, ◌≡◌, refl, ap, ap₂, sym, ◌∙◌, List, [], ◌∷◌, ◌++◌,
  arith, length, length-append, get_or,
}
use ig_cachesim.Capture.{File}
use ig_cachesim.Capture.Bytes.{le, word, length-le, word-append, read_table}
use ig_cachesim.Capture.Data.{
  module_entry_at, node_at, module_offset, module_count, frame_offset, frame_count, stats_offset,
  stats_count, get_modules, get_stacks, get_stats,
}
use ig_cachesim.TraceData.{ResolveResult, symbols_resolved}
use ig_cachesim.TraceData.Written.{Header, header_parts, body, symbols_resolved-parts}

get_or-front : (a b : List ℕ) (i : ℕ) → i < length a → get_or (a ++ b) i 0 ≡ get_or a i 0
get_or-front [] b i h = absurd (omega (arith, h))
get_or-front (x ∷ a) b zero h = refl
get_or-front (x ∷ a) b (suc i) h = get_or-front a b i (omega (arith, h))

pub word-front : (n : ℕ) (a b : List ℕ) (i : ℕ) → i + n ≤ length a → word n (a ++ b) i ≡ word n a i
unfolding word
word-front zero a b i h = refl
word-front (suc n) a b i h =
    ap₂ (λ x y. x + 256 * y) (get_or-front a b i (omega (arith, h)))
      (word-front n a b (suc i) (omega (arith, h)))

-- Two files agree on the words in a range.
pub Agree : File → File → ℕ → ℕ → Type 0
Agree f g lo hi = (n i : ℕ) → lo ≤ i → i + n ≤ hi → word n g i ≡ word n f i

read_table-Agree :
    {A : Type 0} (size : ℕ) (decode : File → ℕ → A) (f g : File) (lo hi : ℕ)
    → ((off : ℕ) → lo ≤ off → off + size ≤ hi → decode g off ≡ decode f off)
    → (n off : ℕ) → lo ≤ off
    → off + n * size ≤ hi
    → read_table size decode n g off ≡ read_table size decode n f off
unfolding read_table
read_table-Agree size decode f g lo hi same zero off a b = refl
read_table-Agree size decode f g lo hi same (suc n) off a b =
    ap₂ (λ x xs. x ∷ xs) (same off a (omega (arith, b)))
      (read_table-Agree size decode f g lo hi same n (off + size) (omega (arith, a))
        (omega (arith, b)))

module _ (f g : File) (lo hi : ℕ) (agree : Agree f g lo hi) where
  module_entry_at-Agree :
      (off : ℕ) → lo ≤ off → off + 24 ≤ hi → module_entry_at g off ≡ module_entry_at f off
  unfolding module_entry_at Agree
  module_entry_at-Agree off a b =
      let p0 = agree 8 off a (omega (arith, b)) in
      let p1 = agree 8 (off + 8) (omega (arith, a)) (omega (arith, b)) in
      let p2 = agree 4 (off + 16) (omega (arith, a)) (omega (arith, b)) in
      let p3 = agree 4 (off + 20) (omega (arith, a)) (omega (arith, b)) in
      λ i. record {
        image_base = p0 i;
        image_segment_offset = p1 i;
        size_bytes = p2 i;
        string_offset = p3 i;
      }

  node_at-Agree : (off : ℕ) → lo ≤ off → off + 48 ≤ hi → node_at g off ≡ node_at f off
  unfolding node_at Agree
  node_at-Agree off a b =
      let p0 = agree 8 off a (omega (arith, b)) in
      let p1 = agree 4 (off + 8) (omega (arith, a)) (omega (arith, b)) in
      let p2 =
        read_table-Agree 4 (word 4) f g lo hi (λ o. agree 4 o) 8 (off + 12) (omega (arith, a))
          (omega (arith, b)) in
      λ i. record { rip = p0 i; stack_index = p1 i; stats = p2 i }

-- The tables of a capture stand behind its header and inside the file.
pub record IsLaidOut (f : File) : Type 0 where
  pub header : 48 ≤ length f
  pub modules : (48 ≤ module_offset f) × (module_offset f + module_count f * 24 ≤ length f)
  pub frames : (48 ≤ frame_offset f) × (frame_offset f + frame_count f * 8 ≤ length f)
  pub stats : (48 ≤ stats_offset f) × (stats_offset f + stats_count f * 48 ≤ length f)

module _ (f : File) (h : Header f) (o c t : ℕ) (tail : List ℕ) where
  front-Agree : Agree f (body f h o c t ++ tail) 0 36
  unfolding Agree
  front-Agree n i a b =
      let one : body f h o c t ++ tail
          ≡ h.front ++ ((le 4 o ++ (le 4 c ++ (le 4 t ++ h.rest))) ++ tail) =
        simp append_assoc in
      let room : i + n ≤ length h.front = omega (arith, b, h.length_front) in
      ap (λ (l : File). word n l i) one
      ∙ word-front n h.front _ i room
      ∙ sym (word-front n h.front _ i room)
      ∙ ap (λ (l : File). word n l i) (sym h.split)

  rest-Agree : Agree f (body f h o c t ++ tail) 48 (length f)
  unfolding Agree
  rest-Agree n i a b =
      let new = h.front ++ (le 4 o ++ (le 4 c ++ le 4 t)) in
      let old = h.front ++ (h.old1 ++ (h.old2 ++ h.old3)) in
      let wide : length new ≡ 48 = omega (
        arith,
        h.length_front,
        length-append h.front (le 4 o ++ (le 4 c ++ le 4 t)),
        length-append (le 4 o) (le 4 c ++ le 4 t),
        length-append (le 4 c) (le 4 t),
        length-le 4 o,
        length-le 4 c,
        length-le 4 t,
      ) in
      let wide_old : length old ≡ 48 = omega (
        arith,
        h.length_front,
        length-append h.front (h.old1 ++ (h.old2 ++ h.old3)),
        length-append h.old1 (h.old2 ++ h.old3),
        length-append h.old2 h.old3,
        h.length_old1,
        h.length_old2,
        h.length_old3,
      ) in
      let g_parts : body f h o c t ++ tail ≡ new ++ (h.rest ++ tail) = simp append_assoc in
      let f_parts : f ≡ old ++ h.rest = h.split ∙ (simp append_assoc) in
      let j = i - 48 in
      let at_new : i ≡ length new + j = omega (arith, wide, a) in
      let at_old : i ≡ length old + j = omega (arith, wide_old, a) in
      let room : j + n ≤ length h.rest =
        omega (arith, a, b, ap length f_parts, length-append old h.rest, wide_old) in
      ap₂ (λ (l : File) (k : ℕ). word n l k) g_parts at_new
      ∙ word-append n new (h.rest ++ tail) j
      ∙ word-front n h.rest tail j room
      ∙ sym (word-append n old h.rest j)
      ∙ ap₂ (λ (l : File) (k : ℕ). word n l k) (sym f_parts) (sym at_old)

module _ (f : File) (r : ResolveResult) (v : IsLaidOut f)
    (small : length f + length r.symbols * 32 + length r.string_data * 2 < 2 ^ 32) where
  resolved-front : Agree f (symbols_resolved r f) 0 36
  resolved-front =
      subst (λ g. Agree f g 0 36) (sym (symbols_resolved-parts f (header_parts f v.header) r small))
        (front-Agree f (header_parts f v.header) _ _ _ _)

  resolved-rest : Agree f (symbols_resolved r f) 48 (length f)
  resolved-rest =
      subst (λ g. Agree f g 48 (length f))
        (sym (symbols_resolved-parts f (header_parts f v.header) r small))
        (rest-Agree f (header_parts f v.header) _ _ _ _)

  field : (i : ℕ) → i + 4 ≤ 36 → word 4 (symbols_resolved r f) i ≡ word 4 f i
  unfolding Agree
  field i h = resolved-front 4 i (omega arith) h

  modules_kept : get_modules (symbols_resolved r f) ≡ get_modules f
  unfolding get_modules module_offset module_count
  modules_kept =
      let g = symbols_resolved r f in
      ap₂ (λ n off. read_table 24 module_entry_at n g off) (field 12 (omega arith))
        (field 8 (omega arith))
      ∙ read_table-Agree 24 module_entry_at f g 48 (length f)
          (module_entry_at-Agree f g 48 (length f) resolved-rest) (module_count f) (module_offset f)
          v.modules.0 v.modules.1

  stacks_kept : get_stacks (symbols_resolved r f) ≡ get_stacks f
  unfolding get_stacks frame_offset frame_count Agree
  stacks_kept =
      let g = symbols_resolved r f in
      ap₂ (λ n off. read_table 8 (word 8) n g off) (field 24 (omega arith)) (field 20 (omega arith))
      ∙ read_table-Agree 8 (word 8) f g 48 (length f) (resolved-rest 8) (frame_count f)
          (frame_offset f) v.frames.0 v.frames.1

  stats_kept : get_stats (symbols_resolved r f) ≡ get_stats f
  unfolding get_stats stats_offset stats_count
  stats_kept =
      let g = symbols_resolved r f in
      ap₂ (λ n off. read_table 48 node_at n g off) (field 32 (omega arith)) (field 28 (omega arith))
      ∙ read_table-Agree 48 node_at f g 48 (length f)
          (node_at-Agree f g 48 (length f) resolved-rest) (stats_count f) (stats_offset f) v.stats.0
          v.stats.1

  -- `symbolsResolved` keeps the modules, the stacks and the nodes that a capture has recorded,
  -- whatever the result of the resolution, if their tables lie behind the header and inside the
  -- file, and the file stays smaller than 2^32 bytes.
  pub symbols_resolved-keeps :
      (get_modules (symbols_resolved r f) ≡ get_modules f)
      × (get_stacks (symbols_resolved r f) ≡ get_stacks f)
      × (get_stats (symbols_resolved r f) ≡ get_stats f)
  symbols_resolved-keeps = (modules_kept, stacks_kept, stats_kept)
