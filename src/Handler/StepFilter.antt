-- ===== src/Handler/StepFilter.antt =====
-- `StepFilter` of CacheSim/CacheSimWindows.cpp, beside the handler of CacheSim/CacheSimLinux.cpp.
use ig_cachesim.Common.{
  ℕ, ◌+◌, ◌-◌, ◌*◌, ◌/◌, ◌%◌, ◌^◌, ◌≡◌, ◌≢◌, refl, sym, Bool, true, false, ◌&&◌, not, Option, none,
  some, List, ◌==◌, if◌then◌else◌, arith, Bool-cases, Option-cases, inl, inr,
}
use ig_cachesim.Stacks.Keys.{StackKey}
use ig_cachesim.Handler.{
  ThreadState, Tracer, Trap, refresh_thread, is_core, trace_instruction, handle_trap,
}

-- `EXCEPTION_CONTINUE_EXECUTION` and `EXCEPTION_CONTINUE_SEARCH`
pub data Disposition : Type 0 where
  continue_execution continue_search : Disposition

-- What the filter returns, with the flags and the `Rip` of the context record, and the state.
pub record Filtered : Type 0 where
  pub disposition : Disposition
  pub eflags : ℕ
  pub rip : ℕ
  pub thread : ThreadState
  pub tracer : Tracer

-- `EFlags |= 0x100`
unfoldable pub set_trap_flag : ℕ → ℕ
set_trap_flag f = f + (1 - f / 2 ^ 8 % 2) * 2 ^ 8

-- The context record is left as it was.
abbrev pub unchanged : Disposition → Trap → ThreadState → Tracer → Filtered
unchanged d trap th p = record {
  disposition = d;
  eflags = trap.eflags;
  rip = trap.context.rip;
  thread = th;
  tracer = p;
}

-- The trap with what Windows knows of its segments.
abbrev pub with_fs_gs_base : Bool → Trap → Trap
with_fs_gs_base have trap = record trap {
  segments = record {
    fs_base = trap.segments.fs_base;
    gs_base = trap.segments.gs_base;
    have_fs_gs_base = have;
  };
}

-- The thread and the tracer after either handler.
abbrev pub after_filter : Option Filtered → Option (ThreadState × Tracer)
after_filter none = none
after_filter (some r) = some (r.thread, r.tracer)

abbrev pub after_trap : Option (ℕ × ThreadState × Tracer) → Option (ThreadState × Tracer)
after_trap none = none
after_trap (some r) = some (r.1, r.2)

with_fs_gs_base_lem :
    (trap : Trap) → trap.segments.have_fs_gs_base ≡ true → with_fs_gs_base true trap ≡ trap
with_fs_gs_base_lem trap h = rw (sym h) refl

-- `single_step` is the test of the exception's code; the two addresses are `g_RaiseExceptionAddress`
-- and `empty_func`; `have_fs_gs_base` is `s_HaveFsGsBase`.
module _ (md5 : List ℕ → StackKey) (raise_exception_address empty_func : ℕ) where
  unfoldable pub step_filter :
      (fuel : ℕ) (have_fs_gs_base single_step : Bool)
      → Trap
      → ThreadState
      → Tracer
      → Option Filtered
  step_filter fuel have_fs_gs_base single_step trap th p =
      if not single_step
      then some (unchanged continue_search trap th p)
      else let th' = refresh_thread trap p th in
        if not (p.trace.trace_enabled == 0) && is_core th'.logical_core_index
        then if trap.context.rip == raise_exception_address
          then some (record {
            disposition = continue_execution;
            eflags = set_trap_flag trap.eflags;
            rip = empty_func;
            thread = th';
            tracer = p;
          })
          else elim (trace_instruction md5 fuel (with_fs_gs_base have_fs_gs_base trap) th' p) [
            | none ↦ none
            | some r ↦ some (record {
              disposition = continue_execution;
              eflags = set_trap_flag trap.eflags;
              rip = trap.context.rip;
              thread = r.0;
              tracer = r.1;
            })
          ]
        else some (unchanged continue_execution trap th' p)

  -- For a single step while the trace is enabled, at an address other than that of
  -- `RaiseException`, and where Windows can read the bases of the segments as Linux can, the filter
  -- of Windows leaves the thread and the tracer as the handler of Linux does.
  pub step_filter-handle_trap :
      (fuel : ℕ) (trap : Trap) (th : ThreadState) (p : Tracer)
      → p.trace.trace_enabled ≢ 0
      → trap.context.rip ≢ raise_exception_address
      → trap.segments.have_fs_gs_base ≡ true
      → after_filter (step_filter fuel true true trap th p)
        ≡ after_trap (handle_trap md5 fuel trap th p)
  unfolding step_filter handle_trap
  step_filter-handle_trap fuel trap th p on ne have =
      let enabled : (p.trace.trace_enabled == 0) ≡ false = ground (arith, on) in
      let away : (trap.context.rip == raise_exception_address) ≡ false = ground (arith, ne) in
      let same : with_fs_gs_base true trap ≡ trap = with_fs_gs_base_lem trap have in
      elim (Bool-cases (is_core (refresh_thread trap p th).logical_core_index)) [
        | inl e ↦
            rw (enabled, away, e, same)
              (elim (Option-cases (trace_instruction md5 fuel trap (refresh_thread trap p th) p)) [
                | inl n ↦ rw n
                | inr s ↦ rw s.1
              ])
        | inr e ↦ rw (enabled, e)
      ]
