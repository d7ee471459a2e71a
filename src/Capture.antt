-- ===== src/Capture.antt =====
-- The end of a capture: `CacheSimEndCapture` of CacheSim/CacheSimCommon.inl, and the structures of
-- CacheSim/CacheSimData.h by which its file is read. A file is the list of its bytes. What
-- `GetModuleList` finds, and whether `fopen` succeeds, are arguments.
pub mod Bytes
pub mod Data
pub mod Header
pub mod Sections
pub mod Records
pub mod Names
pub mod Image
pub mod RoundTrip
pub mod Written
use ig_cachesim.Common.{
  ℕ, zero, suc, ◌+◌, ◌-◌, ◌*◌, ◌%◌, ◌^◌, Bool, true, false, not, Option, none, some, List, [], ◌∷◌,
  ◌++◌, ◌==◌, if◌then◌else◌, take, replicate, length,
}
use ig_cachesim.HashTable.{Elem, Chain, HashTable, find, free_all}
use ig_cachesim.HashTable.Iteration.{elements}
use ig_cachesim.Stacks.{StackStore, StackData, copy}
use ig_cachesim.Stacks.Keys.{RipKey, rip_key, StackKey}
use ig_cachesim.Trace.{RipStats, Trace}
use ig_cachesim.Capture.Bytes.{le}

-- `ModuleInfo`; a file name is its bytes before the terminator.
pub record ModuleInfo : Type 0 where
  pub filename : List ℕ
  pub start_addr_in_memory : ℕ
  pub segment_offset : ℕ
  pub module_length : ℕ

-- `g_ModuleList`, by its first `m_Count` entries.
pub record ModuleList : Type 0 where
  pub infos : List ModuleInfo
  pub module_callbacks : ℕ

abbrev pub no_modules : ModuleList
no_modules = record { infos = []; module_callbacks = 0 }

abbrev pub File : Type 0
File = List ℕ

abbrev pub ftell : File → ℕ
ftell f = length f

unfoldable pub align : File → File
align f = f ++ replicate ((8 - ftell f % 8) % 8) 0

-- `welem` of a `uint32_t` and of a `uint64_t`.
abbrev pub welem32 : ℕ → File → File
welem32 v f = f ++ le 4 v

abbrev pub welem64 : ℕ → File → File
welem64 v f = f ++ le 8 v

-- `PatchWord` and `Update`, at the offset where the placeholder was put.
abbrev pub patch_word : File → File
patch_word f = f ++ (0xcc ∷ 0xdd ∷ 0xee ∷ 0xff ∷ [])

unfoldable pub update : ℕ → ℕ → File → File
update offset value f = copy f offset (le 4 value)

-- The loop over the modules, with `str_section_size`.
unfoldable pub write_modules : ℕ → List ModuleInfo → File → File
write_modules str [] f = f
write_modules str (m ∷ ms) f =
    write_modules ((str + (length m.filename + 1) % 2 ^ 32) % 2 ^ 32) ms (
      welem32 str
        (welem32 m.module_length (welem64 m.segment_offset (welem64 m.start_addr_in_memory f))))

-- The loop over their file names.
unfoldable pub write_names : List ModuleInfo → File → File
write_names [] f = f
write_names (m ∷ ms) f = write_names ms (f ++ (m.filename ++ (0 ∷ [])))

-- `wdata` of frames.
unfoldable pub write_frames : List ℕ → File → File
write_frames [] f = f
write_frames (p ∷ ps) f = write_frames ps (welem64 p f)

-- `welem` of a `RipStats`.
unfoldable pub write_counters : RipStats → File → File
write_counters [] f = f
write_counters (c ∷ cs) f = write_counters cs (welem32 c f)

-- The loop over `g_Stats.Keys()`; `none` is a null pointer that is read.
unfoldable pub write_stats : HashTable RipKey RipStats → Chain RipKey RipStats → File → Option File
write_stats t [] f = some f
write_stats t (e ∷ es) f = elim (find t e.key) [
  | none ↦ none
  | some st ↦
      write_stats t es
        (welem32 0 (write_counters st (welem32 e.key.stack_offset (welem64 e.key.rip f))))
]

-- The header up to `welem(0u); // symbol_text_offset`. Its seven patched words stand at 8, 12, ..., 32.
abbrev pub write_header : File
write_header = welem32 0 (
    welem32 0 (
      welem32 0 (
        patch_word (
          patch_word (
            patch_word (
              patch_word (
                patch_word
                  (patch_word (patch_word (welem32 0x00000002 (welem32 0xcace51af [])))))))))))

-- `if (g_ModuleList.m_Count > 0)`
unfoldable pub write_module_section : List ModuleInfo → File → File
write_module_section [] f = f
write_module_section (m ∷ ms) f =
    let f1 = align f in
    let f2 = update 12 (length (m ∷ ms)) (update 8 (ftell f1) f1) in
    let f3 = write_modules 0 (m ∷ ms) f2 in write_names (m ∷ ms) (update 16 (ftell f3) f3)

unfoldable pub write_frame_section : StackData → File → File
write_frame_section d f =
    let f1 = align f in
    write_frames (take d.count d.frames) (update 24 d.count (update 20 (ftell f1) f1))

unfoldable pub write_stats_section : ℕ → HashTable RipKey RipStats → File → Option File
write_stats_section fuel t f =
    let f1 = align f in
    let f2 = update 32 (t.count % 2 ^ 32) (update 28 (ftell f1) f1) in
    elim (elements fuel t) [ none ↦ none | some es ↦ write_stats t es f2 ]

-- All that is written between `fopen` and `fclose`.
unfoldable pub write_file :
    ℕ → List ModuleInfo → StackData → HashTable RipKey RipStats → Option File
write_file fuel infos d t =
    write_stats_section fuel t (write_frame_section d (write_module_section infos write_header))

-- What the tracer keeps between instructions.
pub record Capture : Type 0 where
  pub trace : Trace
  pub store : StackStore
  pub modules : ModuleList

-- The end of a saved capture, whether or not the file was opened.
unfoldable pub release : Capture → Capture
release c = record {
  trace = record {
    stats = free_all c.trace.stats;
    cache = c.trace.cache;
    trace_enabled = c.trace.trace_enabled;
  };
  store = record {
    stacks = free_all c.store.stacks;
    stack_data = record { frames = []; count = 0; reserve_count = 0 };
  };
  modules = no_modules;
}

-- `CacheSimEndCapture`: the file, if one is written, and the state. `opened` is `fopen`'s success.
unfoldable pub end_capture :
    ℕ → Bool → Bool → List ModuleInfo → Capture → Option (Option File × Capture)
end_capture fuel save opened listed c =
    let stopped = record c {
      trace = record { stats = c.trace.stats; cache = c.trace.cache; trace_enabled = 0 };
    } in
    if not save
    then some (none, stopped)
    else if opened
    then elim (write_file fuel listed c.store.stack_data c.trace.stats) [
      | none ↦ none
      | some f ↦ some (some f, release stopped)
    ]
    else some (none, release stopped)
