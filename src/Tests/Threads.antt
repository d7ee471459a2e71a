-- ===== src/Tests/Threads.antt =====
-- The theorems about the mappings of threads, at a concrete input.
use ig_cachesim.Common.{◌≡◌, ◌≢◌, inl, inr, sym, ◌∙◌, arith}
use ig_cachesim.CoreMapping.{
  CoreMappings, no_mappings, minus_one, find_logical_core_index, set_thread_core_mapping,
}
use ig_cachesim.CoreMapping.Laws.{no_mappings-IsMapping}
use ig_cachesim.CoreMapping.Setting.{Sets, set-Sets}

abbrev one_thread : CoreMappings
one_thread = set_thread_core_mapping 42 3 no_mappings

one_thread-Sets : Sets no_mappings 42 3 one_thread
one_thread-Sets = set-Sets 42 3 no_mappings no_mappings-IsMapping (inl (λ e. ground (arith, e)))

mapped : find_logical_core_index one_thread 42 ≢ minus_one
mapped e = let n : 3 ≡ minus_one = sym one_thread-Sets.own ∙ e in ground (arith, n)

-- The mapping is removed.
set-Sets_example : Sets one_thread 42 minus_one (set_thread_core_mapping 42 minus_one one_thread)
set-Sets_example = set-Sets 42 minus_one one_thread one_thread-Sets.valid (inr mapped)
