-- ===== src/CoreMapping.antt =====
-- The table of threads and logical cores of CacheSim/CacheSimCommon.inl (`FindLogicalCoreIndex`,
-- `CacheSimSetThreadCoreMapping`). An `int` is its two's complement in 32 bits. The lock is held
-- throughout, and `DebugBreak`, which stops at a debugger, is passed.
pub mod Laws
pub mod Changed
pub mod Changes
pub mod Extension
pub mod Setting
use ig_cachesim.Common.{
  ℕ, zero, suc, ◌-◌, ◌+◌, ◌^◌, Bool, Option, none, some, List, ◌==◌, if◌then◌else◌, get_or, set,
  replicate,
}

pub record CoreMapping : Type 0 where
  pub thread_id : ℕ
  pub logical_core : ℕ

abbrev pub empty_mapping : CoreMapping
empty_mapping = record { thread_id = 0; logical_core = 0 }

-- `s_CoreMappings` and `s_CoreMappingCount`
pub record CoreMappings : Type 0 where
  pub mappings : List CoreMapping
  pub count : ℕ

abbrev pub max_mappings : ℕ
max_mappings = 128

-- The static storage, which starts as zero.
abbrev pub no_mappings : CoreMappings
no_mappings = record { mappings = replicate max_mappings empty_mapping; count = 0 }

abbrev pub minus_one : ℕ
minus_one = 2 ^ 32 - 1

-- `for (int i = 0; i < count; ++i)` to the first mapping of the thread, with the rounds left.
unfoldable pub find_mapping : ℕ → ℕ → ℕ → List CoreMapping → Option ℕ
find_mapping zero i thread_id ms = none
find_mapping (suc n) i thread_id ms =
    if (get_or ms i empty_mapping).thread_id == thread_id
    then some i
    else find_mapping n (suc i) thread_id ms

unfoldable pub find_logical_core_index : CoreMappings → ℕ → ℕ
find_logical_core_index s thread_id = elim (find_mapping s.count 0 thread_id s.mappings) [
  | some i ↦ (get_or s.mappings i empty_mapping).logical_core
  | none ↦ minus_one
]

unfoldable pub set_thread_core_mapping : ℕ → ℕ → CoreMappings → CoreMappings
set_thread_core_mapping thread_id logical_core_id s =
    elim (find_mapping s.count 0 thread_id s.mappings) [
      | some i ↦
          if logical_core_id == minus_one
          then record {
            mappings = set s.mappings i (get_or s.mappings (s.count - 1) empty_mapping);
            count = s.count - 1;
          }
          else record {
            mappings = set s.mappings i (record {
              thread_id = (get_or s.mappings i empty_mapping).thread_id;
              logical_core = logical_core_id;
            });
            count = s.count;
          }
      | none ↦ if s.count == max_mappings then s else record {
        mappings =
            set s.mappings s.count
              (record { thread_id = thread_id; logical_core = logical_core_id });
        count = s.count + 1;
      }
    ]
