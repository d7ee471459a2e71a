-- ===== src/Tests/Viewer.antt =====
-- The theorems about what the viewer reads, at a small capture file.
use ig_cachesim.Common.{
  ◌%◌, ◌^◌, ◌≡◌, refl, false, some, List, [], ◌∷◌, arith, get_or, if◌then◌else◌, ◌||◌, ◌&&◌, ◌==◌,
}
use ig_cachesim.Capture.{update}
use ig_cachesim.Stacks.{copy}
use ig_cachesim.Capture.Bytes.{le, word, write_table, read_table}
use ig_cachesim.Capture.Data.{
  get_modules, get_stacks, get_stats, frame_offset, stats_offset, stats_count, node_at, get_symbols,
  symbol_at, symbol_count, symbol_offset,
}
use ig_cachesim.TraceData.{
  Text, same_text, symbol_resolve_task, symbols_resolved, is_resolved, resized, symbol_string,
  qstring_at, symbol_text_offset, serialize_symbols, serialize_symbol, intern_qstring, find_string,
  sort_symbols, insert_sorted, resize, new_header,
}
use ig_cachesim.TraceData.Serialized.{resolved_at}
use ig_cachesim.TraceData.Resolved.{small_result}
use ig_cachesim.TraceData.Kept.{symbols_resolved-keeps}
use ig_cachesim.TreeModel.{
  node, nil, cons, create_tree, add_nodes, add_frames, child, labels, frame_label, node_frames,
  frames_at, reverse, is_selected,
}
use ig_cachesim.Profile.{add_stats}
use ig_cachesim.Capture.Data.Symbols.{find_symbol, find_among, lower_bound}
use ig_cachesim.TreeModel.Paths.{stats_at}
use ig_cachesim.TreeModel.Totals.{top, total_at, create_tree-totals}
use ig_cachesim.Profile.Rows.{row_stats, has_row, AreRows}
use ig_cachesim.Profile.Nodes.{is_key_of, total_of}
use ig_cachesim.FlatModel.{data_store_changed, data_store_changed_cached}
use ig_cachesim.FlatModel.Listed.{node_name, data_store_changed-names}
use ig_cachesim.FlatModel.Reverse.{create_tree-row}
use ig_cachesim.FlatModel.Resolution.{resolved_name, data_store_changed-resolved}
use ig_cachesim.ObjectStack.{no_objects}
use ig_cachesim.ObjectStack.Objects.{alloc_nodes, Builds, alloc_nodes-inside}
use ig_cachesim.SymbolResolver.{module_frames}
use ig_cachesim.SymbolResolver.Frames.{
  count_frames, in_stacks, in_nodes, in_entry, module_frames-once,
}
use ig_cachesim.SymbolResolver.Modules.{AreSorted, module_frames-AreSorted}
use ig_cachesim.FileData.Resolved.{symbol_name_for_address-resolved}
use ig_cachesim.FileData.{
  Lookup, name_at, file_at, look_ups, no_caches, symbol_name_for_address, symbols_resolved_store,
  Caches, interned_symbol_string, find_offset, string_index, find_file_data,
}
use ig_cachesim.FileData.Cached.{AreCached, interned_symbol_string-Reads}
use ig_cachesim.FileData.Found.{Finds, find_file_data-Finds}
use ig_cachesim.Tests.Sample.{
  leaf_text, main_text, file_text, sample, resolved_symbols, sample-IsLaidOut, symbols-FitsResolved,
  symbols-ResolvedOnce, symbols_small, resolved_sample,
}

-- Names are looked up during the resolution and after it.
sample_new : is_resolved sample ≡ false
unfolding is_resolved symbol_count word sample
sample_new = refl

abbrev during_lookups : List Lookup
during_lookups = name_at 0x401100 ∷ []

abbrev after_lookups : List Lookup
after_lookups = file_at 0x401100 ∷ name_at 0x401200 ∷ []

symbol_name_for_address-resolved_example :
    (symbol_name_for_address resolved_sample 0x401100 (
      look_ups resolved_sample after_lookups (
        look_ups
          (resized (symbol_resolve_task (some resolved_symbols)) sample)
          during_lookups
          no_caches))).0
    ≡ some main_text
unfolding resolved_at symbols_resolved_store
symbol_name_for_address-resolved_example =
    symbol_name_for_address-resolved sample resolved_symbols sample-IsLaidOut.header
      symbols-FitsResolved symbols-ResolvedOnce symbols_small sample_new during_lookups
      after_lookups 0x401100

symbols_resolved-keeps_example :
    (get_modules resolved_sample ≡ get_modules sample)
    × (get_stacks resolved_sample ≡ get_stacks sample)
    × (get_stats resolved_sample ≡ get_stats sample)
symbols_resolved-keeps_example =
    symbols_resolved-keeps sample (symbol_resolve_task (some resolved_symbols)) sample-IsLaidOut (
      small_result sample resolved_symbols sample-IsLaidOut.header symbols-FitsResolved
        symbols-ResolvedOnce symbols_small)

-- The leaf below `main`.
create_tree-totals_example :
    get_or (stats_at main_text (leaf_text ∷ []) (top (create_tree resolved_sample []))) 0 0
    ≡ total_at resolved_sample [] main_text (leaf_text ∷ []) 0 (get_stats resolved_sample) % 2 ^ 32
create_tree-totals_example =
    create_tree-totals resolved_sample [] main_text (leaf_text ∷ []) 0 (omega arith)

data_store_changed-names_example :
    AreRows same_text (data_store_changed resolved_sample)
    × ((name : Text)
        → has_row same_text name (data_store_changed resolved_sample)
          ≡ is_key_of same_text (node_name resolved_sample) name (get_stats resolved_sample))
data_store_changed-names_example = data_store_changed-names resolved_sample

create_tree-row_example :
    get_or (stats_at main_text [] (top (create_tree resolved_sample main_text))) 1 0
    ≡ get_or (row_stats same_text main_text (data_store_changed resolved_sample)) 1 0
create_tree-row_example = create_tree-row resolved_sample 109 (97 ∷ 105 ∷ 110 ∷ []) 1 (omega arith)

data_store_changed-resolved_example :
    ((data_store_changed_cached
        (resized (symbol_resolve_task (some resolved_symbols)) sample)
        no_caches).0
      ≡ [])
    × (get_or
          (row_stats same_text leaf_text
            (data_store_changed_cached resolved_sample (
              look_ups resolved_sample after_lookups (
                look_ups
                  (resized (symbol_resolve_task (some resolved_symbols)) sample)
                  during_lookups
                  no_caches))).0)
          4
          0
        ≡ total_of same_text (resolved_name resolved_symbols) leaf_text 4 (get_stats sample)
          % 2 ^ 32)
unfolding symbols_resolved_store
data_store_changed-resolved_example =
    data_store_changed-resolved sample resolved_symbols sample-IsLaidOut symbols-FitsResolved
      symbols-ResolvedOnce symbols_small sample_new during_lookups after_lookups no_caches leaf_text
      4 (omega arith)

alloc_nodes-inside_example : Builds no_objects (alloc_nodes 0x5000 20000 no_objects)
alloc_nodes-inside_example = alloc_nodes-inside 0x5000 20000

module_frames-once_example : count_frames 0x401100 (module_frames sample) ≡ (
    if (in_stacks 0x401100 (get_stacks sample) || in_nodes 0x401100 (get_stats sample))
      && in_entry 0x401100 (get_modules sample)
    then 1
    else 0)
module_frames-once_example = module_frames-once sample 0x401100

module_frames-AreSorted_example : AreSorted (module_frames sample)
module_frames-AreSorted_example = module_frames-AreSorted sample

-- The caches after the name of the leaf, the second string of the file, has been read.
abbrev leaf_cached : Caches
leaf_cached =
    (interned_symbol_string resolved_sample 1
      (record { symbol_string_cache = []; string_to_symbol_name_index = [] })).1

no_strings-AreCached :
    AreCached resolved_sample
      (record { symbol_string_cache = []; string_to_symbol_name_index = [] })
no_strings-AreCached = record { strings = tt; index = tt }

leaf_index : (string_index leaf_cached leaf_text == 0) ≡ false
unfolding string_index interned_symbol_string find_offset symbol_string qstring_at
    symbol_text_offset word symbols_resolved symbol_resolve_task serialize_symbols serialize_symbol
    intern_qstring find_string sort_symbols insert_sorted resize new_header update copy sample
leaf_index = refl

find_file_data-Finds_example :
    Finds resolved_sample leaf_text (find_file_data resolved_sample leaf_text leaf_cached)
find_file_data-Finds_example =
    find_file_data-Finds resolved_sample leaf_text leaf_cached
      (interned_symbol_string-Reads resolved_sample 1
        (record { symbol_string_cache = []; string_to_symbol_name_index = [] })
        no_strings-AreCached).cached
      leaf_index

-- The tree of the file: `main`, and its leaf below it.
tree_of_sample :
    top (create_tree resolved_sample [])
    ≡ cons
        (node main_text file_text
          (5 ∷ 1 ∷ 0 ∷ 0 ∷ 2 ∷ 0 ∷ 0 ∷ 1 ∷ [])
          (cons (node leaf_text file_text (5 ∷ 1 ∷ 0 ∷ 0 ∷ 2 ∷ 0 ∷ 0 ∷ 1 ∷ []) nil) nil))
        nil
unfolding create_tree add_nodes add_frames child labels frame_label node_frames frames_at reverse
    is_selected add_stats get_stats stats_count stats_offset frame_offset read_table node_at
    find_symbol find_among lower_bound get_symbols symbol_at symbol_count symbol_offset le
    write_table symbol_string qstring_at symbol_text_offset word symbols_resolved
    symbol_resolve_task serialize_symbols serialize_symbol intern_qstring find_string sort_symbols
    insert_sorted resize new_header update copy sample
tree_of_sample = refl
