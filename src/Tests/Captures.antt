-- ===== src/Tests/Captures.antt =====
-- The theorems about a table's elements and about the file of a capture, at concrete inputs.
use mathlib.Core.Option.{some-injective, some-ne-none}
use ig_cachesim.Common.{
  ◌≡◌, ◌<◌, ◌^◌, refl, ap, sym, ◌∙◌, All, none, some, [], ◌∷◌, ◌++◌, replicate, arith, take, map,
  inl, inr, Bool-cases,
}
use ig_cachesim.HashTable.{Chain, HashTable, reset, find, find_internal, insert}
use ig_cachesim.HashTable.Laws.{reset-IsValid, Inserts, insert-Inserts}
use ig_cachesim.HashTable.Iteration.{elements}
use ig_cachesim.HashTable.Keys.{Lists, elements-Lists}
use ig_cachesim.Stacks.{insert_stack, append, reserve, virtual_memory_realloc, copy}
use ig_cachesim.Stacks.Keys.{RipKey, rip_key, rip_equal, rip_equal_iff}
use ig_cachesim.Trace.{RipStats, no_stats}
use ig_cachesim.Capture.{ModuleInfo, File, write_file}
use ig_cachesim.Capture.Bytes.{le, word, read_table}
use ig_cachesim.Capture.Data.{get_symbols, symbol_count, symbol_offset, symbol_at}
use ig_cachesim.Capture.Data.Symbols.{IsSorted, find_symbol, search, find_symbol-search}
use ig_cachesim.Capture.Sections.{FitsModule, FitsNode, entries, names, node_of}
use ig_cachesim.Capture.RoundTrip.{Reads}
use ig_cachesim.Capture.Written.{IsWritable, write_file-Reads}
use ig_cachesim.Tests.Tables.{one_stack, one_stack-Adds}

abbrev rip : RipKey
rip = record { rip = 0x401000; stack_offset = 0 }

abbrev before : HashTable RipKey RipStats
before = reset

abbrev table : HashTable RipKey RipStats
table = insert no_stats before rip

table-Inserts : Inserts no_stats before rip table
table-Inserts =
    insert-Inserts no_stats before rip (reset-IsValid {V = RipStats}).0
      (unfold reset in omega arith)

before_empty : (k : RipKey) → find before k ≡ none
before_empty k = (reset-IsValid {V = RipStats}).1 k

table_count : table.count ≡ 1
table_count = table-Inserts.count ∙ rw (before_empty rip) (unfold reset in refl)

elements-Lists_example :
    (es : Chain RipKey RipStats) × (elements 2 table ≡ some es) × Lists table es
elements-Lists_example = elements-Lists 2 table table-Inserts.valid (omega (arith, table_count))

abbrev program : ModuleInfo
program = record {
  filename = 0x61 ∷ 0x2e ∷ [];
  start_addr_in_memory = 0x400000;
  segment_offset = 0x1000;
  module_length = 0x2000;
}

abbrev library : ModuleInfo
library = record {
  filename = 0x62 ∷ [];
  start_addr_in_memory = 0x7f0000000000;
  segment_offset = 0;
  module_length = 0x5000;
}

no_stats_fit : All (λ c. c < 2 ^ 32) no_stats
no_stats_fit = (
  omega arith,
  (
    omega arith,
    (omega arith, (omega arith, (omega arith, (omega arith, (omega arith, (omega arith, tt)))))),
  ),
)

nodes_fit :
    (k : RipKey) (st : RipStats)
    → find table k ≡ some st
    → FitsNode (record { rip = k.rip; stack_index = k.stack_offset; stats = st })
nodes_fit k st e = elim (Bool-cases (rip_equal k rip)) [
  | inl same ↦
      let kr : k ≡ rip = (rip_equal_iff k rip).0 same in
      let sr : st ≡ no_stats =
        some-injective st no_stats
          (sym e ∙ ap (find table) kr ∙ table-Inserts.own ∙ rw (before_empty rip)) in
      record {
        rip = omega (arith, ap (λ (x : RipKey). x.rip) kr);
        stack = omega (arith, ap (λ (x : RipKey). x.stack_offset) kr);
        width = rw sr;
        stats = rw sr no_stats_fit;
      }
  | inr other ↦ absurd (some-ne-none st (sym e ∙ table-Inserts.others k other ∙ before_empty k))
]

frames_fit : All (λ v. v < 2 ^ 64) (take one_stack.stack_data.count one_stack.stack_data.frames)
unfolding insert_stack append reserve virtual_memory_realloc copy find reset find_internal
frames_fit = (omega arith, (omega arith, (omega arith, (omega arith, tt))))

frame_count : one_stack.stack_data.count ≡ 4
unfolding insert_stack append reserve virtual_memory_realloc copy find reset find_internal
frame_count = refl

program_fits : FitsModule (record {
  image_base = 0x400000;
  image_segment_offset = 0x1000;
  size_bytes = 0x2000;
  string_offset = 0;
})
program_fits = record {
  base = omega arith;
  segment = omega arith;
  size = omega arith;
  string = omega arith;
}

library_fits : FitsModule (record {
  image_base = 0x7f0000000000;
  image_segment_offset = 0;
  size_bytes = 0x5000;
  string_offset = 3;
})
library_fits = record {
  base = omega arith;
  segment = omega arith;
  size = omega arith;
  string = omega arith;
}

is_writable : IsWritable (program ∷ library ∷ []) one_stack.stack_data table
is_writable = record {
  modules = unfold entries in (program_fits, (library_fits, tt));
  filenames = ((omega arith, (omega arith, tt)), ((omega arith, tt), tt));
  frames = frames_fit;
  nodes = nodes_fit;
  size = unfold names in omega (arith, table_count, frame_count);
}

write_file-Reads_example :
    (f : File) × (es : Chain RipKey RipStats) × (write_file 2
        (program ∷ library ∷ [])
        one_stack.stack_data
        table
      ≡ some f)
    × Lists table es
    × Reads f
        (program ∷ library ∷ [])
        (take one_stack.stack_data.count one_stack.stack_data.frames)
        (map node_of es)
write_file-Reads_example =
    write_file-Reads 2 program (library ∷ []) one_stack.stack_data table table-Inserts.valid
      one_stack-Adds.valid.memory is_writable (omega (arith, table_count))

-- A file with two symbols, at 0x401000 and 0x402000.
abbrev symbol_file : File
symbol_file =
    replicate 36 0
    ++ (le 4 48
        ++ (le 4 2
            ++ (le 4 0
                ++ (le 8 0x401000 ++ (replicate 24 1 ++ (le 8 0x402000 ++ replicate 24 2))))))

symbol_file-IsSorted : IsSorted (get_symbols symbol_file)
unfolding get_symbols symbol_count symbol_offset symbol_at read_table word le
symbol_file-IsSorted = ((omega arith, tt), (tt, tt))

find_symbol-search_example :
    find_symbol symbol_file 0x402000 ≡ search (get_symbols symbol_file) 0x402000
find_symbol-search_example = find_symbol-search symbol_file 0x402000 symbol_file-IsSorted
