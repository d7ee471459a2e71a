-- ===== src/Capture/Written.antt =====
-- What `CacheSimEndCapture` writes, as its readers find it.
use ig_cachesim.Common.{
  ℕ, suc, ◌+◌, ◌-◌, ◌*◌, ◌%◌, ◌^◌, ◌≤◌, ◌<◌, ◌≡◌, All, All-map, refl, ap, ap₂, ◌∙◌, some, List, [],
  ◌∷◌, map, arith, length, length-append, length-take, length-replicate, take,
}
use ig_cachesim.HashTable.{Elem, Chain, HashTable, find}
use ig_cachesim.HashTable.Growth.{IsValid}
use ig_cachesim.HashTable.Keys.{Lists, elements-Lists}
use ig_cachesim.HashTable.Listed.{Lists-found}
use ig_cachesim.Stacks.{StackData}
use ig_cachesim.Stacks.Keys.{RipKey, rip_key}
use ig_cachesim.Stacks.Memory.{IsData}
use ig_cachesim.Trace.{RipStats}
use ig_cachesim.Capture.{ModuleInfo, File, write_file}
use ig_cachesim.Capture.Bytes.{le, write_table}
use ig_cachesim.Capture.Sections.{FitsModule, FitsNode, entries, names, node_of}
use ig_cachesim.Capture.Names.{IsName}
use ig_cachesim.Capture.Records.{length-write_words, length-write_modules, length-write_nodes}
use ig_cachesim.Capture.RoundTrip.{Fits, Reads, image-Reads, length-entries}
use ig_cachesim.Capture.Image.{
  image, length-image, modules_part, names_part, frames_start, frames_part, stats_start, pad,
  write_file-image,
}

-- The values of a capture fit their fields, and all of them together fit offsets of 32 bits.
pub record IsWritable (ms : List ModuleInfo) (d : StackData) (t : HashTable RipKey RipStats)
    : Type 0 where
  pub modules : All FitsModule (entries 0 ms)
  pub filenames : All (λ m. IsName m.filename) ms
  pub frames : All (λ v. v < 2 ^ 64) (take d.count d.frames)
  pub nodes :
      (k : RipKey) (st : RipStats)
      → find t k ≡ some st
      → FitsNode (record { rip = k.rip; stack_index = k.stack_offset; stats = st })
  pub size : 62 + (length ms * 24 + length (names ms) + d.count * 8 + t.count * 48) < 2 ^ 32

length-map_nodes : (es : Chain RipKey RipStats) → length (map node_of es) ≡ length es
length-map_nodes [] = refl
length-map_nodes (e ∷ es) = ap suc (length-map_nodes es)

All-node_of :
    (es : Chain RipKey RipStats)
    → All (λ e. FitsNode (node_of e)) es
    → All FitsNode (map node_of es)
All-node_of [] h = tt
All-node_of (e ∷ es) h = (h.0, All-node_of es h.1)

length-pad : (b : List ℕ) → length (pad b) ≤ 7
length-pad b = omega (arith, length-replicate {A = ℕ} ((8 - (48 + length b) % 8) % 8) 0)

length-stats_start :
    (ms : List ModuleInfo) (fs : List ℕ)
    → All FitsModule (entries 0 ms)
    → All (λ v. v < 2 ^ 64) fs
    → length (stats_start ms fs) ≤ 14 + (length ms * 24 + length (names ms) + length fs * 8)
length-stats_start ms fs h k = omega (
  arith,
  length-append (frames_part ms fs) (pad (frames_part ms fs)),
  length-append (frames_start ms) (write_table (le 8) fs),
  length-append (names_part ms) (pad (names_part ms)),
  length-append (modules_part ms) (names ms),
  length-pad (frames_part ms fs),
  length-pad (names_part ms),
  length-write_words 8 fs k,
  length-write_modules (entries 0 ms) h,
  length-entries 0 ms,
)

-- Where at least one module is listed, the tables are well formed, the fuel is above the count of
-- the keys, and all values and the whole file fit their fields: the end of a capture writes a file.
-- Its accessors give the magic number and the version, no symbols, the modules with their names,
-- all frames of the call stacks, and a node for each key of the table with its counters.
pub write_file-Reads :
    (fuel : ℕ) (m : ModuleInfo) (ms : List ModuleInfo) (d : StackData)
    (t : HashTable RipKey RipStats)
    → IsValid t
    → IsData d
    → IsWritable (m ∷ ms) d t
    → t.count < fuel
    → (f : File) × (es : Chain RipKey RipStats) × (write_file fuel (m ∷ ms) d t ≡ some f)
      × Lists t es
      × Reads f (m ∷ ms) (take d.count d.frames) (map node_of es)
write_file-Reads fuel m ms d t valid memory v h =
    let l = elements-Lists fuel t valid h in
    let es = l.0 in
    let fs = take d.count d.frames in
    let ns = map node_of es in
    let nodes : All FitsNode ns = All-node_of es (
      All-map {P = λ (e : Elem RipKey RipStats). find t e.key ≡ some e.value}
        (λ e. v.nodes e.key e.value) es (Lists-found t es l.2)) in
    let fc : d.count ≡ length fs =
      omega (arith, length-take d.count d.frames, memory.width, memory.fits) in
    let tc : t.count % 2 ^ 32 ≡ length ns = omega (arith, length-map_nodes es, l.2.size, v.size) in
    let written = write_file-image fuel m ms d t es l.1 (Lists-found t es l.2) in
    let fits : Fits (m ∷ ms) fs ns = record {
      modules = v.modules;
      names = v.filenames;
      frames = v.frames;
      nodes = nodes;
      size = omega (
        arith,
        length-image (m ∷ ms) fs ns,
        length-stats_start (m ∷ ms) fs v.modules v.frames,
        length-write_nodes ns nodes,
        v.size,
        fc,
        length-map_nodes es,
        l.2.size,
      );
    } in
    (
      image (m ∷ ms) fs ns (length fs) (length ns),
      es,
      written ∙ ap₂ (λ a b. some (image (m ∷ ms) fs ns a b)) fc tc,
      l.2,
      image-Reads (m ∷ ms) fs ns fits,
    )
