-- ===== src/Capture/RoundTrip.antt =====
-- What the accessors of CacheSim/CacheSimData.h find in the file of a capture.
use mathlib.Core.List.{append_assoc, append-nil}
use ig_cachesim.Common.{
  ℕ, suc, ◌+◌, ◌*◌, ◌%◌, ◌^◌, ◌≤◌, ◌<◌, ◌≡◌, All, refl, ap, sym, ◌∙◌, List, [], ◌∷◌, ◌++◌, map,
  arith, length, length-append,
}
use ig_cachesim.Stacks.Keys.{rip_key}
use ig_cachesim.Capture.{ModuleInfo, File}
use ig_cachesim.Capture.Bytes.{le, word, write_table, read_table}
use ig_cachesim.Capture.Data.{
  SerializedNode, magic, version, module_string_offset, symbol_count, get_modules, get_stacks,
  get_stats, get_module_name, c_string, module_entry_at, node_at,
}
use ig_cachesim.Capture.Header.{
  header, magic-header, version-header, symbol_count-header, module_count-header,
  module_offset-header, module_string_offset-header, frame_count-header, frame_offset-header,
  stats_count-header, stats_offset-header,
}
use ig_cachesim.Capture.Sections.{FitsModule, FitsNode, encode_node, entries, names}
use ig_cachesim.Capture.Records.{
  length-write_words, length-write_modules, length-write_nodes, read_words, read_modules,
  read_nodes,
}
use ig_cachesim.Capture.Names.{IsName, names-read}
use ig_cachesim.Capture.Image.{
  image, length-header, length-image, modules_part, names_part, frames_start, frames_part,
  stats_start, pad,
}

pub length-entries : (str : ℕ) (ms : List ModuleInfo) → length (entries str ms) ≡ length ms
unfolding entries
length-entries str [] = refl
length-entries str (m ∷ ms) =
    ap suc (length-entries ((str + (length m.filename + 1) % 2 ^ 32) % 2 ^ 32) ms)

-- A table of a file, at the length of what stands before it.
pub table_read :
    {A : Type 0} (read : ℕ → File → ℕ → List A) (f g a : File) (xs : List A) (n off : ℕ)
    → f ≡ g
    → n ≡ length xs
    → off ≡ length a
    → read (length xs) g (length a) ≡ xs
    → read n f off ≡ xs
table_read read f g a xs n off p q r e =
    ap (λ k. read k f off) q
    ∙ ap (λ (h : File). read (length xs) h off) p
    ∙ ap (read (length xs) g) r
    ∙ e

-- The values of a capture fit their fields in the file, and the file is not too long for its offsets.
pub record Fits (ms : List ModuleInfo) (fs : List ℕ) (ns : List SerializedNode) : Type 0 where
  pub modules : All FitsModule (entries 0 ms)
  pub frames : All (λ v. v < 2 ^ 64) fs
  pub nodes : All FitsNode ns
  pub names : All (λ m. IsName m.filename) ms
  pub size : length (image ms fs ns (length fs) (length ns)) < 2 ^ 32

-- What a reader finds in a file.
pub record Reads (f : File) (ms : List ModuleInfo) (fs : List ℕ) (ns : List SerializedNode)
    : Type 0 where
  pub magic : magic f ≡ 0xcace51af
  pub version : version f ≡ 2
  pub symbols : symbol_count f ≡ 0
  pub modules : get_modules f ≡ entries 0 ms
  pub stacks : get_stacks f ≡ fs
  pub stats : get_stats f ≡ ns
  pub names : map (get_module_name f) (get_modules f) ≡ map (λ m. m.filename) ms

module _ (ms : List ModuleInfo) (fs : List ℕ) (ns : List SerializedNode) (v : Fits ms fs ns) where
  abbrev file : File
  file = image ms fs ns (length fs) (length ns)

  abbrev head : File
  head =
      header 48 (length ms) (48 + length (modules_part ms)) (48 + length (frames_start ms))
        (length fs) (48 + length (stats_start ms fs)) (length ns)

  head_lem : length head ≡ 48
  head_lem = length-header _ _ _ _ _ _ _

  frames_bound : length (frames_start ms) + length fs * 8 ≤ length (stats_start ms fs)
  frames_bound = omega (
    arith,
    length-append (frames_part ms fs) (pad (frames_part ms fs)),
    length-append (frames_start ms) (write_table (le 8) fs),
    length-write_words 8 fs v.frames,
  )

  modules_bound : length ms * 24 ≤ length (modules_part ms)
  modules_bound = omega (arith, length-write_modules (entries 0 ms) v.modules, length-entries 0 ms)

  names_size : length (modules_part ms) + length (names ms) ≤ length (frames_start ms)
  names_size = omega (
    arith,
    length-append (names_part ms) (pad (names_part ms)),
    length-append (modules_part ms) (names ms),
  )

  names_bound : length (modules_part ms) ≤ length (frames_start ms)
  names_bound = omega (arith, names_size)

  abbrev after_frames : List ℕ
  after_frames = pad (frames_part ms fs) ++ write_table encode_node ns

  abbrev after_names : List ℕ
  after_names = pad (names_part ms) ++ (write_table (le 8) fs ++ after_frames)

  abbrev after_modules : List ℕ
  after_modules = names ms ++ after_names

  behind_head : (b : List ℕ) → length (head ++ b) ≡ 48 + length b
  behind_head b = length-append head b ∙ ap (λ n. n + length b) head_lem

  file_size : length file ≡ 48 + (length (stats_start ms fs) + length (write_table encode_node ns))
  file_size = length-image ms fs ns (length fs) (length ns)

  stats_bound : 48 + (length (stats_start ms fs) + length ns * 48) < 2 ^ 32
  stats_bound = omega (arith, v.size, file_size, length-write_nodes ns v.nodes)

  file-modules : file ≡ head ++ (modules_part ms ++ after_modules)
  unfolding image
  file-modules = ap (λ (b : File). head ++ b) (simp append_assoc)

  file-names : file ≡ (head ++ modules_part ms) ++ (names ms ++ after_names)
  file-names = file-modules ∙ sym (append_assoc head (modules_part ms) (names ms ++ after_names))

  file-frames : file ≡ (head ++ frames_start ms) ++ (write_table (le 8) fs ++ after_frames)
  unfolding image
  file-frames =
      ap (λ (b : File). head ++ b)
        (ap (λ (b : File). b ++ write_table encode_node ns)
            (append_assoc (frames_start ms) (write_table (le 8) fs) (pad (frames_part ms fs)))
          ∙ append_assoc (frames_start ms) _ (write_table encode_node ns)
          ∙ ap (λ (b : File). frames_start ms ++ b)
              (append_assoc (write_table (le 8) fs) (pad (frames_part ms fs))
                (write_table encode_node ns)))
      ∙ sym (append_assoc head (frames_start ms) (write_table (le 8) fs ++ after_frames))

  file-stats : file ≡ (head ++ stats_start ms fs) ++ (write_table encode_node ns ++ [])
  unfolding image
  file-stats =
      ap (λ (b : File). head ++ (stats_start ms fs ++ b))
        (sym (append-nil (write_table encode_node ns)))
      ∙ sym (append_assoc head (stats_start ms fs) (write_table encode_node ns ++ []))

  image-modules : get_modules file ≡ entries 0 ms
  unfolding image get_modules
  image-modules =
      table_read (λ n. read_table 24 module_entry_at n) file _ head (entries 0 ms) _ _ file-modules
        (module_count-header _ _ _ _ _ _ _ _
            (omega (arith, modules_bound, names_bound, frames_bound, stats_bound))
          ∙ sym (length-entries 0 ms))
        (module_offset-header _ _ _ _ _ _ _ _ (omega arith) ∙ sym head_lem)
        (read_modules (entries 0 ms) head after_modules v.modules)

  image-stacks : get_stacks file ≡ fs
  unfolding image get_stacks
  image-stacks =
      table_read (λ n. read_table 8 (word 8) n) file _ (head ++ frames_start ms) fs _ _ file-frames
        (frame_count-header _ _ _ _ _ _ _ _ (omega (arith, frames_bound, stats_bound)))
        (frame_offset-header _ _ _ _ _ _ _ _ (omega (arith, frames_bound, stats_bound))
          ∙ sym (behind_head (frames_start ms)))
        (read_words 8 fs (head ++ frames_start ms) after_frames v.frames)

  image-stats : get_stats file ≡ ns
  unfolding image get_stats
  image-stats =
      table_read (λ n. read_table 48 node_at n) file _ (head ++ stats_start ms fs) ns _ _ file-stats
        (stats_count-header _ _ _ _ _ _ _ _ (omega (arith, stats_bound)))
        (stats_offset-header _ _ _ _ _ _ _ _ (omega (arith, stats_bound))
          ∙ sym (behind_head (stats_start ms fs)))
        (read_nodes ns (head ++ stats_start ms fs) [] v.nodes)

  image-names : map (get_module_name file) (entries 0 ms) ≡ map (λ m. m.filename) ms
  unfolding image get_module_name
  image-names =
      let base : module_string_offset file ≡ 48 + length (modules_part ms) =
        module_string_offset-header _ _ _ _ _ _ _ _
          (omega (arith, names_bound, frames_bound, stats_bound)) in
      ap
        (λ b.
          map (λ e. c_string (length file) file ((b + e.string_offset) % 2 ^ 32)) (entries 0 ms))
        base
      ∙ ap
          (λ f.
            map
              (λ e.
                c_string (length file) f
                  ((48 + length (modules_part ms) + e.string_offset) % 2 ^ 32))
              (entries 0 ms))
          file-names
      ∙ names-read ms (length file) (48 + length (modules_part ms)) 0 (head ++ modules_part ms)
          after_names v.names (omega (arith, behind_head (modules_part ms)))
          (omega (arith, names_size, frames_bound, stats_bound))
          (omega (arith, names_size, frames_bound, file_size))

  pub image-Reads : Reads file ms fs ns
  unfolding image
  image-Reads = record {
    magic = magic-header _ _ _ _ _ _ _ _;
    version = version-header _ _ _ _ _ _ _ _;
    symbols = symbol_count-header _ _ _ _ _ _ _ _;
    modules = image-modules;
    stacks = image-stacks;
    stats = image-stats;
    names = ap (map (get_module_name file)) image-modules ∙ image-names;
  }
