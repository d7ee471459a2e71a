-- ===== src/Capture/Image.antt =====
-- The file of a capture as its header and the parts behind it, in their order.
use mathlib.Core.List.{append_assoc}
use ig_cachesim.Common.{
  ℕ, ◌+◌, ◌-◌, ◌%◌, ◌^◌, ◌≤◌, ◌≡◌, All, refl, ap, ◌∙◌, some, List, ◌∷◌, ◌++◌, map, arith, length,
  length-append, replicate, take,
}
use ig_cachesim.HashTable.{Chain, HashTable, find}
use ig_cachesim.HashTable.Iteration.{elements}
use ig_cachesim.Stacks.{StackData, copy}
use ig_cachesim.Stacks.Keys.{RipKey, rip_key}
use ig_cachesim.Trace.{RipStats}
use ig_cachesim.Capture.{
  ModuleInfo, File, align, update, write_header, write_module_section, write_frame_section,
  write_stats_section, write_file,
}
use ig_cachesim.Capture.Bytes.{le, write_table}
use ig_cachesim.Capture.Data.{SerializedNode}
use ig_cachesim.Capture.Header.{header, update-append, length-update}
use ig_cachesim.Capture.Sections.{
  encode_module, encode_node, entries, names, write_modules-entries, write_names-names,
  write_frames-table, node_of, write_stats-table,
}

-- The zeros that `align` puts behind a header and a body.
abbrev pub pad : List ℕ → List ℕ
pad b = replicate ((8 - (48 + length b) % 8) % 8) 0

-- The body up to the end of each part.
abbrev pub modules_part : List ModuleInfo → List ℕ
modules_part ms = write_table encode_module (entries 0 ms)

abbrev pub names_part : List ModuleInfo → List ℕ
names_part ms = modules_part ms ++ names ms

abbrev pub frames_start : List ModuleInfo → List ℕ
frames_start ms = names_part ms ++ pad (names_part ms)

abbrev pub frames_part : List ModuleInfo → List ℕ → List ℕ
frames_part ms fs = frames_start ms ++ write_table (le 8) fs

abbrev pub stats_start : List ModuleInfo → List ℕ → List ℕ
stats_start ms fs = frames_part ms fs ++ pad (frames_part ms fs)

-- The whole file.
unfoldable pub image : List ModuleInfo → List ℕ → List SerializedNode → ℕ → ℕ → File
image ms fs ns fc tc =
    header 48 (length ms) (48 + length (modules_part ms)) (48 + length (frames_start ms)) fc
      (48 + length (stats_start ms fs)) tc
    ++ (stats_start ms fs ++ write_table encode_node ns)

pub length-header : (mo mc so fo fc to tc : ℕ) → length (header mo mc so fo fc to tc) ≡ 48
unfolding header update copy le
length-header mo mc so fo fc to tc = refl

pub length-image :
    (ms : List ModuleInfo) (fs : List ℕ) (ns : List SerializedNode) (fc tc : ℕ)
    → length (image ms fs ns fc tc)
      ≡ 48 + (length (stats_start ms fs) + length (write_table encode_node ns))
unfolding image
length-image ms fs ns fc tc = omega (
  arith,
  length-append _ (stats_start ms fs ++ write_table encode_node ns),
  length-append (stats_start ms fs) (write_table encode_node ns),
  length-header 48 (length ms) (48 + length (modules_part ms)) (48 + length (frames_start ms)) fc
      (48 + length (stats_start ms fs)) tc,
)

align-append : (h b : File) → length h ≡ 48 → align (h ++ b) ≡ h ++ (b ++ pad b)
unfolding align
align-append h b w =
    ap (λ n. (h ++ b) ++ replicate ((8 - n % 8) % 8) 0) (length-append h b ∙ omega (arith, w))
    ∙ append_assoc h b (pad b)

-- Two patches of the header of a file.
patches :
    (i j v w : ℕ) (h b : File)
    → length h ≡ 48
    → i ≤ 44
    → j ≤ 44
    → update j w (update i v (h ++ b)) ≡ update j w (update i v h) ++ b
patches i j v w h b e p q =
    ap (update j w) (update-append i v h b (omega (arith, e, p)))
    ∙ update-append j w (update i v h) b (omega (arith, e, q, length-update i v h))

length-patches : (i j v w : ℕ) (h : File) → length h ≡ 48 → length (update j w (update i v h)) ≡ 48
length-patches i j v w h e = length-update j w (update i v h) ∙ length-update i v h ∙ e

length-behind : (h b : File) → length h ≡ 48 → length (h ++ b) ≡ 48 + length b
length-behind h b e = omega (arith, length-append h b, e)

write_module_section-image :
    (m : ModuleInfo) (ms : List ModuleInfo)
    → write_module_section (m ∷ ms) write_header
      ≡ update 16
          (48 + length (modules_part (m ∷ ms)))
          (update 12 (length (m ∷ ms)) (update 8 48 write_header))
        ++ names_part (m ∷ ms)
unfolding write_module_section align le
write_module_section-image m ms =
    let h = update 12 (length (m ∷ ms)) (update 8 48 write_header) in
    let e : length h ≡ 48 = length-patches 8 12 48 (length (m ∷ ms)) write_header refl in
    let p = modules_part (m ∷ ms) in
    let s = 48 + length p in
    rw (write_modules-entries 0 (m ∷ ms) h, length-behind h p e)
      (rw (update-append 16 s h p (omega (arith, e)))
          (write_names-names (m ∷ ms) (update 16 s h ++ p))
        ∙ append_assoc (update 16 s h) p (names (m ∷ ms)))

write_frame_section-image :
    (d : StackData) (h b : File)
    → length h ≡ 48
    → write_frame_section d (h ++ b)
      ≡ update 24 d.count (update 20 (48 + length (b ++ pad b)) h)
        ++ ((b ++ pad b) ++ write_table (le 8) (take d.count d.frames))
unfolding write_frame_section
write_frame_section-image d h b e =
    let c = b ++ pad b in
    rw (align-append h b e, length-behind h c e)
      (write_frames-table (take d.count d.frames) _
        ∙ ap (λ (f : File). f ++ write_table (le 8) (take d.count d.frames))
            (patches 20 24 (48 + length c) d.count h c e (omega arith) (omega arith))
        ∙ append_assoc _ c (write_table (le 8) (take d.count d.frames)))

write_stats_section-image :
    (fuel : ℕ) (t : HashTable RipKey RipStats) (es : Chain RipKey RipStats) (h b : File)
    → length h ≡ 48
    → elements fuel t ≡ some es
    → All (λ e. find t e.key ≡ some e.value) es
    → write_stats_section fuel t (h ++ b)
      ≡ some (
          update 32 (t.count % 2 ^ 32) (update 28 (48 + length (b ++ pad b)) h)
          ++ ((b ++ pad b) ++ write_table encode_node (map node_of es)))
unfolding write_stats_section
write_stats_section-image fuel t es h b e listed reads =
    let c = b ++ pad b in
    rw (listed, write_stats_section, align-append h b e, length-behind h c e)
      (write_stats-table t es _ reads
        ∙ ap (λ (f : File). some (f ++ write_table encode_node (map node_of es)))
            (patches 28 32 (48 + length c) (t.count % 2 ^ 32) h c e (omega arith) (omega arith))
        ∙ ap some (append_assoc _ c (write_table encode_node (map node_of es))))

pub write_file-image :
    (fuel : ℕ) (m : ModuleInfo) (ms : List ModuleInfo) (d : StackData)
    (t : HashTable RipKey RipStats) (es : Chain RipKey RipStats)
    → elements fuel t ≡ some es
    → All (λ e. find t e.key ≡ some e.value) es
    → write_file fuel (m ∷ ms) d t
      ≡ some (image (m ∷ ms) (take d.count d.frames) (map node_of es) d.count (t.count % 2 ^ 32))
unfolding write_file image header le
write_file-image fuel m ms d t es listed reads =
    let n = length (m ∷ ms) in
    let s = 48 + length (modules_part (m ∷ ms)) in
    let h1 = update 12 n (update 8 48 write_header) in
    let h2 = update 16 s h1 in
    let e2 : length h2 ≡ 48 = length-update 16 s h1 ∙ length-patches 8 12 48 n write_header refl in
    let fo = 48 + length (frames_start (m ∷ ms)) in
    let e3 = length-patches 20 24 fo d.count h2 e2 in
    rw (write_module_section-image m ms, write_frame_section-image d h2 (names_part (m ∷ ms)) e2)
      (write_stats_section-image fuel t es _ (frames_part (m ∷ ms) (take d.count d.frames)) e3
        listed reads)
