-- ===== src/Trace/Commit.antt =====
-- The whole critical section of one instruction.
use mathlib.Core.Option
use ig_cachesim.Common.{
  ℕ, ◌^◌, ◌<◌, ◌≡◌, ◌≢◌, ◌⊎◌, inl, inr, refl, ap, ◌∙◌, false, some, List, [], ◌∷◌, ◌++◌, ◌==◌,
  arith, if◌then◌else◌, Bool-cases,
}
use ig_cachesim.HashTable.{find, insert}
use ig_cachesim.HashTable.Laws.{insert-Inserts, value_or}
use ig_cachesim.Stacks.Keys.{RipKey, rip_key, rip_equal}
use ig_cachesim.Jaguar.{
  AccessResult, d1_hit, l2_hit, prefetch_hit_d1, prefetch_hit_l2, instructions_executed, to_nat,
  read, code_read, write, JaguarCacheSim,
}
use ig_cachesim.Jaguar.Valid.{IsSim}
use ig_cachesim.Jaguar.Access.{access-touch_lines}
use ig_cachesim.Trace.{
  no_stats, MemOp, Trace, count_event, get_rip_node, count_prefetch, prefetch, commit,
}
use ig_cachesim.Trace.Counts.{
  bumps, map-bumps_none, IsTrace, Counts, Counts-append, count_event-Counts, IsInside, AllInside,
  op_result, op_results, op_result-IsSim, accessed, access_op_lem, accessed-Counts,
  access_ops-Counts,
}

-- What is counted of a prefetch by its result.
unfoldable pub prefetch_count : AccessResult → List ℕ
prefetch_count d1_hit = to_nat prefetch_hit_d1 ∷ []
prefetch_count l2_hit = to_nat prefetch_hit_l2 ∷ []
prefetch_count _ = []

-- What is counted of a prefetch, if there is one, and the caches after it.
unfoldable pub prefetch_events : ℕ → MemOp → JaguarCacheSim → List ℕ × JaguarCacheSim
prefetch_events core_index op sim =
    if op.ea == 0
    then ([], sim)
    else (let (r, sim') = op_result core_index read op sim in (prefetch_count r, sim'))

-- What is counted of an instruction, and the caches after it: the instruction, the read of its code,
-- its prefetch, its reads and its writes, each on the caches that the one before it has left.
unfoldable pub instruction_events :
    ℕ → MemOp → MemOp → List MemOp → List MemOp → JaguarCacheSim → List ℕ × JaguarCacheSim
instruction_events core_index code prefetch_op reads writes sim =
    let (c, sim1) = op_result core_index code_read code sim in
    let (ps, sim2) = prefetch_events core_index prefetch_op sim1 in
    let (rs, sim3) = op_results core_index read reads sim2 in
    let (ws, sim4) = op_results core_index write writes sim3 in
    (to_nat instructions_executed ∷ to_nat c ∷ ps ++ (rs ++ ws), sim4)

module _ (k : RipKey) where
  uncounted-Counts :
      (t : Trace) (cache : JaguarCacheSim)
      → IsTrace t
      → IsSim cache
      → Counts k t [] cache (record t { cache = cache })
  uncounted-Counts t cache v c = record {
    cache = refl;
    valid = record { table = v.table; sim = c };
    own = map-bumps_none (find t.stats k);
    others = λ q n. refl;
  }

  count_prefetch-Counts :
      (a : AccessResult) (t : Trace) (cache : JaguarCacheSim)
      → IsTrace t
      → IsSim cache
      → Counts k t (prefetch_count a) cache (count_prefetch k a (record t { cache = cache }))
  unfolding count_prefetch prefetch_count
  count_prefetch-Counts d1_hit t cache v c =
      count_event-Counts k t (to_nat prefetch_hit_d1) cache v c
  count_prefetch-Counts l2_hit t cache v c =
      count_event-Counts k t (to_nat prefetch_hit_l2) cache v c
  count_prefetch-Counts _ t cache v c = uncounted-Counts t cache v c

  prefetch-Counts :
      (fuel core_index : ℕ) (op : MemOp) (t : Trace)
      → IsTrace t
      → (op.ea ≡ 0) ⊎ IsInside fuel op
      → (r : Trace) × (prefetch fuel k core_index op t ≡ some r)
        × (let q = prefetch_events core_index op t.cache in Counts k t q.0 q.1 r)
  unfolding prefetch prefetch_events
  prefetch-Counts fuel core_index op t v h = elim (Bool-cases (op.ea == 0)) [
    | inl e ↦ rw e (t, refl, uncounted-Counts t t.cache v v.sim)
    | inr e ↦ elim h [
      | inl z ↦ absurd (ground (arith, e, z))
      | inr i ↦
          let q = op_result core_index read op t.cache in
          let eq = access-touch_lines fuel core_index op.ea op.sz t.cache read i.below i.enough in
          rw (e, eq)
            (
              count_prefetch k q.0 (record t { cache = q.1 }),
              refl,
              count_prefetch-Counts q.0 t q.1 v (op_result-IsSim core_index read op v.sim),
            )
    ]
  ]

-- The accesses of one instruction, each in the address space and with the fuel for its lines.
pub record AreInside (fuel rip ilen : ℕ) (prefetch_op : MemOp) (reads writes : List MemOp)
    : Type 0 where
  pub code : IsInside fuel (record { ea = rip; sz = ilen })
  pub prefetched : (prefetch_op.ea ≡ 0) ⊎ IsInside fuel prefetch_op
  pub read : AllInside fuel reads
  pub written : AllInside fuel writes

-- A trace `r`, against `t` before an instruction of the core `core_index` with the key `k`.
pub record Commits (core_index : ℕ) (k : RipKey) (ilen : ℕ) (prefetch_op : MemOp)
    (reads writes : List MemOp) (t : Trace) (r : Trace) : Type 0 where
  pub valid : IsTrace r
  pub own :
      find r.stats k
      ≡ some (
          bumps
            (instruction_events core_index
              (record { ea = k.rip; sz = ilen })
              prefetch_op
              reads
              writes
              t.cache).0
            (value_or no_stats (find t.stats k)))
  pub others : (q : RipKey) → rip_equal q k ≡ false → find r.stats q ≡ find t.stats q
  pub cache :
      r.cache
      ≡ (instruction_events core_index
          (record { ea = k.rip; sz = ilen })
          prefetch_op
          reads
          writes
          t.cache).1

-- While the trace is enabled, the table has fewer than 2^59 elements, and every access lies below
-- the last line of the address space and has the fuel for its lines: the accesses of an instruction
-- end, keep the table and the caches well formed, and leave the counters of every other key. The
-- counters of the instruction's key, new or old, count the instruction, the result of its code, a
-- hit of its prefetch in the L1 or the L2, and the result of each read and each write, in this
-- order; each result is that of touching the lines of the access in the caches that the one before
-- has left, and the caches are those after the last.
pub commit-Commits :
    (fuel core_index rip ilen stack_offset : ℕ) (prefetch_op : MemOp) (reads writes : List MemOp)
    (t : Trace)
    → IsTrace t
    → t.trace_enabled ≢ 0
    → t.stats.count < 2 ^ 59
    → AreInside fuel rip ilen prefetch_op reads writes
    → (r : Trace) × (commit fuel core_index rip ilen stack_offset prefetch_op reads writes t
        ≡ some r)
      × Commits core_index
          (record { rip = rip; stack_offset = stack_offset })
          ilen
          prefetch_op
          reads
          writes
          t
          r
unfolding commit get_rip_node count_event instruction_events
commit-Commits fuel core_index rip ilen stack_offset prefetch_op reads writes t v on small h =
    let k : RipKey = record { rip = rip; stack_offset = stack_offset } in
    let code : MemOp = record { ea = rip; sz = ilen } in
    let ins = insert-Inserts no_stats t.stats k v.table small in
    let node : Trace = record t { stats = insert no_stats t.stats k } in
    let enabled : (t.trace_enabled == 0) ≡ false = ground (arith, on) in
    let t0 = count_event k (to_nat instructions_executed) node in
    let c1 =
      count_event-Counts k node (to_nat instructions_executed) t.cache
        (record { table = ins.valid; sim = v.sim }) v.sim in
    let eq1 = access_op_lem fuel k core_index code_read code t0 h.code in
    let t1 = accessed fuel k core_index code_read code t0 in
    let c2 = accessed-Counts fuel k core_index code_read code t0 c1.valid in
    let (t2, eq2, c3) = prefetch-Counts k fuel core_index prefetch_op t1 c2.valid h.prefetched in
    let (t3, eq3, c4) = access_ops-Counts fuel k core_index read reads t2 c3.valid h.read in
    let (t4, eq4, c5) = access_ops-Counts fuel k core_index write writes t3 c4.valid h.written in
    let all = Counts-append c1 (Counts-append c2 (Counts-append c3 (Counts-append c4 c5))) in
    let same3 : op_results core_index read reads t2.cache
        ≡ op_results core_index read reads (prefetch_events core_index prefetch_op t1.cache).1 =
      ap (op_results core_index read reads) c3.cache in
    let same4 : op_results core_index write writes t3.cache
        ≡ op_results core_index write writes (op_results core_index read reads t2.cache).1 =
      ap (op_results core_index write writes) c4.cache in
    (
      t4,
      rw (enabled, eq1, eq2, eq3) eq4,
      record {
        valid = all.valid;
        own =
            all.own
            ∙ rw (same4, same3)
                (ap
                  (Option.map
                    (bumps (instruction_events core_index code prefetch_op reads writes t.cache).0))
                  ins.own);
        others = λ q n. all.others q n ∙ ins.others q n;
        cache = all.cache ∙ rw (same4, same3);
      },
    )
