-- ===== src/Trace.antt =====
-- The critical section at the end of `GenerateMemoryAccesses` of CacheSim/CacheSimCommon.inl: the
-- accesses of one instruction go through the caches, and their results are counted under its key. The
-- accesses themselves are arguments. A write through the pointer `stats` is a `store` under the key.
pub mod Counts
pub mod Commit
use ig_cachesim.Common.{
  ℕ, zero, suc, ◌+◌, ◌%◌, ◌^◌, Bool, not, Option, none, some, List, [], ◌∷◌, ◌==◌, if◌then◌else◌,
  get_or, set, replicate,
}
use ig_cachesim.HashTable.{HashTable, insert, store}
use ig_cachesim.Stacks.Keys.{RipKey, rip_key}
use ig_cachesim.Jaguar.{
  AccessResult, d1_hit, l2_hit, prefetch_hit_d1, prefetch_hit_l2, instructions_executed, to_nat,
  AccessMode, read, code_read, write, JaguarCacheSim, access,
}

-- `RipStats`, by its `m_Stats`
abbrev pub RipStats : Type 0
RipStats = List ℕ

abbrev pub access_result_count : ℕ
access_result_count = 8

-- `RipStats()`
abbrev pub no_stats : RipStats
no_stats = replicate access_result_count 0

-- `MemOp`
pub record MemOp : Type 0 where
  pub ea : ℕ
  pub sz : ℕ

-- `g_Stats`, `g_Cache` and `g_TraceEnabled`
pub record Trace : Type 0 where
  pub stats : HashTable RipKey RipStats
  pub cache : JaguarCacheSim
  pub trace_enabled : ℕ

-- `m_Stats[r] += 1`, on a `uint32_t`
unfoldable pub bump : ℕ → RipStats → RipStats
bump r st = set st r ((get_or st r 0 + 1) % 2 ^ 32)

unfoldable pub count_event : RipKey → ℕ → Trace → Trace
count_event k r t = record t { stats = store (bump r) t.stats k }

unfoldable pub get_rip_node : ℕ → ℕ → HashTable RipKey RipStats → HashTable RipKey RipStats
get_rip_node pc stack_offset stats =
    insert no_stats stats (record { rip = pc; stack_offset = stack_offset })

-- One access and the count of its result.
unfoldable pub access_op : ℕ → RipKey → ℕ → AccessMode → MemOp → Trace → Option Trace
access_op fuel k core_index mode op t = elim (access fuel t.cache core_index op.ea op.sz mode) [
  | none ↦ none
  | some (r, cache) ↦ some (count_event k (to_nat r) (record t { cache = cache }))
]

-- The loops over `reads` and over `writes`.
unfoldable pub access_ops : ℕ → RipKey → ℕ → AccessMode → List MemOp → Trace → Option Trace
access_ops fuel k core_index mode [] t = some t
access_ops fuel k core_index mode (op ∷ ops) t = elim (access_op fuel k core_index mode op t) [
  | none ↦ none
  | some t' ↦ access_ops fuel k core_index mode ops t'
]

-- The `switch` on the result of a prefetch.
unfoldable pub count_prefetch : RipKey → AccessResult → Trace → Trace
count_prefetch k d1_hit t = count_event k (to_nat prefetch_hit_d1) t
count_prefetch k l2_hit t = count_event k (to_nat prefetch_hit_l2) t
count_prefetch k _ t = t

unfoldable pub prefetch : ℕ → RipKey → ℕ → MemOp → Trace → Option Trace
prefetch fuel k core_index op t =
    if not (op.ea == 0)
    then elim (access fuel t.cache core_index op.ea op.sz read) [
      | none ↦ none
      | some (r, cache) ↦ some (count_prefetch k r (record t { cache = cache }))
    ]
    else some t

-- From the lock to the end of `GenerateMemoryAccesses`.
unfoldable pub commit : ℕ → ℕ → ℕ → ℕ → ℕ → MemOp → List MemOp → List MemOp → Trace → Option Trace
commit fuel core_index rip ilen existing_stack_index prefetch_op reads writes t =
    let k : RipKey = record { rip = rip; stack_offset = existing_stack_index } in
    let node = record t { stats = get_rip_node rip existing_stack_index t.stats } in
    if t.trace_enabled == 0
    then some t
    else elim (access_op fuel k core_index code_read (record { ea = rip; sz = ilen })
        (count_event k (to_nat instructions_executed) node)) [
          | none ↦ none
          | some t1 ↦ elim (prefetch fuel k core_index prefetch_op t1) [
            | none ↦ none
            | some t2 ↦ elim (access_ops fuel k core_index read reads t2) [
              | none ↦ none
              | some t3 ↦ access_ops fuel k core_index write writes t3
            ]
          ]
        ]
