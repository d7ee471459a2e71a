-- ===== src/Handler/Traced.antt =====
-- A single step of a thread that is mapped to a core.
use ig_cachesim.Common.{
  ℕ, ◌^◌, ◌<◌, ◌≡◌, ◌≢◌, refl, some, List, ◌==◌, false, true, length, arith, Bool-cases, inl, inr,
}
use ig_cachesim.CoreMapping.{find_logical_core_index}
use ig_cachesim.Stacks.Keys.{StackKey}
use ig_cachesim.Stacks.Insertion.{IsStore}
use ig_cachesim.Trace.Counts.{IsTrace}
use ig_cachesim.Trace.Commit.{AreInside, Commits}
use ig_cachesim.Accesses.{Accesses, no_stack_index, memory_accesses}
use ig_cachesim.Accesses.Generate.{generate_memory_accesses-Commits}
use ig_cachesim.Handler.{
  ThreadState, Tracer, Trap, refresh_thread, is_core, trace_instruction, handle_trap,
}
use ig_cachesim.Handler.Stack.{Stacked, find_stack-Stacked}

-- Both tables and the caches are well formed.
pub record IsTracer (md5 : List ℕ → StackKey) (p : Tracer) : Type 0 where
  pub trace : IsTrace p.trace
  pub store : IsStore md5 p.store

-- The accesses of a trap's instruction; they do not depend on the stack.
abbrev pub accesses_at : Trap → ℕ → ℕ → Accesses
accesses_at trap stack_index do_ms_step =
    memory_accesses trap.segments trap.ud trap.context stack_index do_ms_step

-- What a trap can be traced with.
pub record IsTraceable (fuel : ℕ) (trap : Trap) (p : Tracer) : Type 0 where
  pub on : p.trace.trace_enabled ≢ 0
  pub some_frames : 0 < length trap.callstack
  pub few_frames : length trap.callstack < 128
  pub frames : p.store.stack_data.count < 2 ^ 30
  pub stacks : p.store.stacks.count < 2 ^ 59
  pub keys : p.trace.stats.count < 2 ^ 59
  pub runs : (i : ℕ) → (accesses_at trap i p.do_ms_step).stopped ≡ false
  pub inside :
      (i : ℕ)
      → AreInside fuel trap.context.rip trap.ilen
          (accesses_at trap i p.do_ms_step).prefetch_op
          (accesses_at trap i p.do_ms_step).reads
          (accesses_at trap i p.do_ms_step).writes

-- The thread `th` and the tracer `p` before the instruction, `r` after it.
pub record Traces (md5 : List ℕ → StackKey) (trap : Trap) (th : ThreadState) (p : Tracer)
    (r : ThreadState × Tracer) : Type 0 where
  pub index : ℕ
  pub valid : IsTracer md5 r.1
  pub stacked : Stacked md5 trap.callstack th.stack_index p.store (index, r.1.store)
  pub counted :
      Commits th.logical_core_index
        (record { rip = trap.context.rip; stack_offset = index })
        trap.ilen
        (accesses_at trap index p.do_ms_step).prefetch_op
        (accesses_at trap index p.do_ms_step).reads
        (accesses_at trap index p.do_ms_step).writes
        p.trace
        r.1.trace
  pub after_stack : r.0.stack_index ≡ (accesses_at trap index p.do_ms_step).stack_index
  pub same_core : r.0.logical_core_index ≡ th.logical_core_index
  pub same_generation : r.0.generation ≡ th.generation

trace_instruction-Traces :
    (md5 : List ℕ → StackKey) (fuel : ℕ) (trap : Trap) (th : ThreadState) (p : Tracer)
    → IsTracer md5 p
    → IsTraceable fuel trap p
    → (r : ThreadState × Tracer) × (trace_instruction md5 fuel trap th p ≡ some r)
      × Traces md5 trap th p r
unfolding trace_instruction
trace_instruction-Traces md5 fuel trap th p v h =
    let (found, e, s) =
      find_stack-Stacked md5 trap.callstack th.stack_index p.store v.store h.some_frames
        h.few_frames h.frames h.stacks in
    let (t, e', c) =
      generate_memory_accesses-Commits fuel trap.segments th.logical_core_index trap.ud
        trap.context.rip trap.ilen trap.context found.0 p.do_ms_step p.trace v.trace h.on h.keys
        (h.runs found.0) (h.inside found.0) in
    let a = accesses_at trap found.0 p.do_ms_step in
    let p' : Tracer = record {
      trace = t;
      store = found.1;
      mappings = p.mappings;
      generation = p.generation;
      do_ms_step = a.do_ms_step;
    } in
    (
      (record th { stack_index = a.stack_index }, p'),
      rw (e, trace_instruction, e'),
      record {
        index = found.0;
        valid = record { trace = c.valid; store = s.valid };
        stacked = s;
        counted = c;
        after_stack = refl;
        same_core = refl;
        same_generation = refl;
      },
    )

-- A thread that was last seen in another capture gets its core and loses its stack.
pub record Refreshed (trap : Trap) (p : Tracer) (th r : ThreadState) : Type 0 where
  pub current : r.generation ≡ p.generation
  pub same : th.generation ≡ p.generation → r ≡ th
  pub core :
      th.generation ≢ p.generation
      → r.logical_core_index ≡ find_logical_core_index p.mappings trap.thread_id
  pub stack : th.generation ≢ p.generation → r.stack_index ≡ no_stack_index

refresh_thread-Refreshed :
    (trap : Trap) (p : Tracer) (th : ThreadState) → Refreshed trap p th (refresh_thread trap p th)
unfolding refresh_thread
refresh_thread-Refreshed trap p th = elim (Bool-cases (th.generation == p.generation)) [
  | inl e ↦ rw e (record {
    current = ground (arith, e);
    same = λ q. refl;
    core = λ n. absurd (n (ground (arith, e)));
    stack = λ n. absurd (n (ground (arith, e)));
  })
  | inr e ↦ rw e (record {
    current = refl;
    same = λ q. absurd (ground (arith, e, q));
    core = λ n. refl;
    stack = λ n. refl;
  })
]

-- A trap with one to 127 frames, while the trace is enabled, of a thread that is mapped to a core,
-- where the tables and caches are well formed and below their bounds, no access of the instruction
-- stops at a `DebugBreak`, and the accesses have their fuel: the handler returns. The thread's core
-- and stack are renewed exactly if its generation is old. The instruction and the results of its
-- accesses are counted under its address and a stack index, which is the thread's own if it is
-- known, and otherwise the offset of a stored stack with the digest of the callers. The tables and
-- caches stay well formed.
pub handle_trap-Traces :
    (md5 : List ℕ → StackKey) (fuel : ℕ) (trap : Trap) (th : ThreadState) (p : Tracer)
    → IsTracer md5 p
    → IsTraceable fuel trap p
    → is_core (refresh_thread trap p th).logical_core_index ≡ true
    → (r : ThreadState × Tracer) × (handle_trap md5 fuel trap th p ≡ some (trap.eflags, r.0, r.1))
      × Refreshed trap p th (refresh_thread trap p th)
      × Traces md5 trap (refresh_thread trap p th) p r
unfolding handle_trap
handle_trap-Traces md5 fuel trap th p v h core =
    let on : (p.trace.trace_enabled == 0) ≡ false = ground (arith, h.on) in
    let (r, e, t) = trace_instruction-Traces md5 fuel trap (refresh_thread trap p th) p v h in
    (r, rw (on, core, e), refresh_thread-Refreshed trap p th, t)
