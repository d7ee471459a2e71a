-- ===== src/Tests/Traps.antt =====
-- The theorems about the lock and about the handlers of single steps, at concrete inputs.
use ig_cachesim.Common.{
  ℕ, ◌≤◌, ◌≡◌, ◌≢◌, refl, inl, true, some, List, [], ◌∷◌, arith, length, get_or,
}
use ig_cachesim.HashTable.{reset}
use ig_cachesim.CoreMapping.{CoreMappings, no_mappings, find_mapping, find_logical_core_index}
use ig_cachesim.Operand.{
  ea_breaks, compute_ea, adjust_segment, add_index, add_base, add_displacement, read_reg,
  sign_extend,
}
use ig_cachesim.Stacks.{no_stacks}
use ig_cachesim.Stacks.Insertion.{no_stacks-IsStore}
use ig_cachesim.Accesses.{
  explicit_accesses, implicit_accesses, operand_accesses, operand_access, data_r, data_w, at_ea,
  breaks, memory_accesses,
}
use ig_cachesim.Lock.{
  outside, inside, Threads, idle, run, step, act, try_lock, atomic_compare_exchange,
}
use ig_cachesim.Lock.Exclusion.{idle-IsExclusive, step-IsExclusive, run-exclusive}
use ig_cachesim.Lock.Progress.{run-acquires}
use ig_cachesim.Handler.{
  Greg, reg_rbx, reg_rcx, reg_rsp, reg_rip, reg_efl, convert_to_win_style_context, ThreadState,
  Tracer, Trap, refresh_thread, handle_trap,
}
use ig_cachesim.Handler.StepFilter.{step_filter, after_filter, after_trap, step_filter-handle_trap}
use ig_cachesim.Handler.Traced.{IsTracer, IsTraceable, Refreshed, Traces, handle_trap-Traces}
use ig_cachesim.Tests.Operands.{registers, segments}
use ig_cachesim.Tests.Traces.{start, start-IsTrace}
use ig_cachesim.Tests.Tables.{digest}
use ig_cachesim.Tests.Instructions.{load}

-- Thread 1 is inside, and thread 0 waits.
abbrev schedule : List ℕ
schedule = 0 ∷ 1 ∷ 1 ∷ 0 ∷ []

abbrev contended : Threads
contended = run (idle 2) schedule

second_inside : get_or contended.phases 1 outside ≡ inside
unfolding run step act try_lock atomic_compare_exchange
second_inside = refl

run-exclusive_example : get_or contended.phases 0 outside ≢ inside
run-exclusive_example =
    run-exclusive 2 schedule 1 0 (omega arith, (omega arith, (omega arith, (omega arith, tt))))
      (omega arith) (omega arith) second_inside

-- One of two threads has entered the constructor.
abbrev entered : Threads
entered = step (idle 2) 0

run-acquires_example :
    (is : List ℕ) × (length is ≤ 2) × (get_or (run entered is).phases 0 outside ≡ inside)
run-acquires_example =
    run-acquires entered 0 0 (step-IsExclusive (idle 2) 0 (omega arith) (idle-IsExclusive 2))
      (unfold step act in omega arith) (unfold step act in refl)

abbrev one_core : CoreMappings
one_core = record no_mappings { count = 1 }

abbrev pub tracer : Tracer
tracer = record {
  trace = start;
  store = no_stacks;
  mappings = one_core;
  generation = 2;
  do_ms_step = 0;
}

abbrev fresh_thread : ThreadState
fresh_thread = record { generation = 0; stack_index = 0; logical_core_index = 0 }

-- The registers of `Tests.Operands`, as a signal has them.
abbrev gregs : Greg → ℕ
gregs reg_rbx = 0x10000
gregs reg_rcx = 3
gregs reg_rsp = 0x7000
gregs reg_rip = 0x401000
gregs reg_efl = 0x100
gregs _ = 0

signal_registers : convert_to_win_style_context gregs ≡ registers
unfolding convert_to_win_style_context
signal_registers = refl

abbrev trap : Trap
trap = record {
  thread_id = 0;
  eflags = 0x100;
  callstack = 0x401000 ∷ 0x402000 ∷ 0x403000 ∷ [];
  segments = segments;
  context = registers;
  ud = load;
  ilen = 3;
}

pub tracer-IsTracer : IsTracer digest tracer
tracer-IsTracer = record { trace = start-IsTrace; store = no_stacks-IsStore digest }

trap-IsTraceable : IsTraceable 4 trap tracer
unfolding memory_accesses explicit_accesses implicit_accesses operand_accesses operand_access data_r
    data_w compute_ea adjust_segment add_index add_base add_displacement read_reg sign_extend reset
    at_ea breaks ea_breaks
trap-IsTraceable = record {
  on = λ e. ground (arith, e);
  some_frames = omega arith;
  few_frames = omega arith;
  frames = omega arith;
  stacks = omega arith;
  keys = omega arith;
  runs = λ i. refl;
  inside = λ i. record {
    code = record { below = omega arith; enough = omega arith };
    prefetched = inl (omega arith);
    read = (record { below = omega arith; enough = omega arith }, tt);
    written = tt;
  };
}

handle_trap-Traces_example :
    (r : ThreadState × Tracer) × (handle_trap digest 4 trap fresh_thread tracer
      ≡ some (0x100, r.0, r.1))
    × Refreshed trap tracer fresh_thread (refresh_thread trap tracer fresh_thread)
    × Traces digest trap (refresh_thread trap tracer fresh_thread) tracer r
handle_trap-Traces_example =
    handle_trap-Traces digest 4 trap fresh_thread tracer tracer-IsTracer trap-IsTraceable
      (unfold refresh_thread find_logical_core_index find_mapping in refl)

step_filter-handle_trap_example :
    after_filter (step_filter digest 0x7000 0x8000 4 true true trap fresh_thread tracer)
    ≡ after_trap (handle_trap digest 4 trap fresh_thread tracer)
step_filter-handle_trap_example =
    step_filter-handle_trap digest 0x7000 0x8000 4 trap fresh_thread tracer (λ e. ground (arith, e))
      (λ e. ground (arith, e)) refl
