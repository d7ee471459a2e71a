-- ===== src/Accesses/Generate.antt =====
-- `GenerateMemoryAccesses` as a whole: the accesses of an instruction, and their statistics.
use ig_cachesim.Common.{ℕ, ◌^◌, ◌<◌, ◌≡◌, ◌≢◌, false, if◌then◌else◌, Option, none, some}
use ig_cachesim.Operand.{Context, Segments}
use ig_cachesim.Trace.{Trace, commit}
use ig_cachesim.Trace.Counts.{IsTrace}
use ig_cachesim.Trace.Commit.{AreInside, Commits, commit-Commits}
use ig_cachesim.Accesses.{Ud, Accesses, memory_accesses}

-- `none` where an access stops at `DebugBreak`. The statistics of the instruction go under the stack that is known before it.
unfoldable pub generate_memory_accesses :
    ℕ → Segments → ℕ → Ud → ℕ → ℕ → Context → ℕ → ℕ → Trace → Option (ℕ × ℕ × Trace)
generate_memory_accesses fuel s core_index ud rip ilen ctx stack_index do_ms_step t =
    let a = memory_accesses s ud ctx stack_index do_ms_step in
    if a.stopped
    then none
    else elim (commit fuel core_index rip ilen stack_index a.prefetch_op a.reads a.writes t) [
      | none ↦ none
      | some t' ↦ some (a.stack_index, a.do_ms_step, t')
    ]

module _ (fuel : ℕ) (s : Segments) (core_index : ℕ) (ud : Ud) (rip ilen : ℕ) (ctx : Context)
    (stack_index do_ms_step : ℕ) where
  abbrev pub generated : Accesses
  generated = memory_accesses s ud ctx stack_index do_ms_step

  -- While the trace is enabled, the tables and caches are well formed, the table has fewer than
  -- 2^59 elements, no access stops at a `DebugBreak`, and every access of the instruction lies
  -- below the last line of the address space and has the fuel for its lines:
  -- `GenerateMemoryAccesses` ends and counts the accesses that the instruction makes under its
  -- address and the stack index that the thread had before it.
  pub generate_memory_accesses-Commits :
      (t : Trace)
      → IsTrace t
      → t.trace_enabled ≢ 0
      → t.stats.count < 2 ^ 59
      → generated.stopped ≡ false
      → AreInside fuel rip ilen generated.prefetch_op generated.reads generated.writes
      → (r : Trace) × (generate_memory_accesses fuel s core_index ud rip ilen ctx stack_index
            do_ms_step t
          ≡ some (generated.stack_index, generated.do_ms_step, r))
        × Commits core_index
            (record { rip = rip; stack_offset = stack_index })
            ilen
            generated.prefetch_op
            generated.reads
            generated.writes
            t
            r
  unfolding generate_memory_accesses
  generate_memory_accesses-Commits t v on small runs h =
      let (r, e, c) =
        commit-Commits fuel core_index rip ilen stack_index generated.prefetch_op generated.reads
          generated.writes t v on small h in
      (r, rw (runs, e, generate_memory_accesses), c)
