-- ===== src/Handler.antt =====
-- The handlers of single steps: `HandleTrap` of CacheSim/CacheSimLinux.cpp and `StepFilter` of
-- CacheSim/CacheSimWindows.cpp. What the operating system and the disassembler give is a `Trap`.
-- `DebugBreak` at a call stack of no frame or of too many stops the process, which is `none`.
pub mod Stack
pub mod Traced
pub mod StepFilter
use ig_cachesim.Common.{
  ℕ, ◌+◌, ◌-◌, ◌*◌, ◌/◌, ◌%◌, ◌^◌, Bool, true, false, ◌||◌, ◌&&◌, not, Option, none, some, List, [],
  ◌∷◌, ◌==◌, ltb, if◌then◌else◌, drop, length,
}
use ig_cachesim.CoreMapping.{CoreMappings, find_logical_core_index}
use ig_cachesim.Operand.{Context, Segments}
use ig_cachesim.Stacks.{StackStore, insert_stack}
use ig_cachesim.Stacks.Keys.{StackKey}
use ig_cachesim.Trace.{Trace}
use ig_cachesim.Accesses.{Ud, no_stack_index}
use ig_cachesim.Accesses.Generate.{generate_memory_accesses}

-- `ThreadState`, without its disassembler.
pub record ThreadState : Type 0 where
  pub generation : ℕ
  pub stack_index : ℕ
  pub logical_core_index : ℕ

-- What the handlers read and write for all threads.
pub record Tracer : Type 0 where
  pub trace : Trace
  pub store : StackStore
  pub mappings : CoreMappings
  pub generation : ℕ
  pub do_ms_step : ℕ

-- A single step of a thread: its id, flags and registers, its call stack by `backtrace` (at most
-- `kMaxCalls` frames), and the instruction, with the length that `ud_disassemble` returns.
pub record Trap : Type 0 where
  pub thread_id : ℕ
  pub eflags : ℕ
  pub callstack : List ℕ
  pub segments : Segments
  pub context : Context
  pub ud : Ud
  pub ilen : ℕ

-- The indices of `gregs` in an `mcontext_t`.
pub data Greg : Type 0 where
  reg_rax reg_rcx reg_rdx reg_rbx reg_rsp reg_rbp reg_rsi reg_rdi reg_r8 : Greg
  reg_r9 reg_r10 reg_r11 reg_r12 reg_r13 reg_r14 reg_r15 reg_rip reg_efl : Greg

-- `ConvertToWinStyleContext`
unfoldable pub convert_to_win_style_context : (Greg → ℕ) → Context
convert_to_win_style_context gregs = record {
  rax = gregs reg_rax;
  rcx = gregs reg_rcx;
  rdx = gregs reg_rdx;
  rbx = gregs reg_rbx;
  rsp = gregs reg_rsp;
  rbp = gregs reg_rbp;
  rsi = gregs reg_rsi;
  rdi = gregs reg_rdi;
  r8 = gregs reg_r8;
  r9 = gregs reg_r9;
  r10 = gregs reg_r10;
  r11 = gregs reg_r11;
  r12 = gregs reg_r12;
  r13 = gregs reg_r13;
  r14 = gregs reg_r14;
  r15 = gregs reg_r15;
  rip = gregs reg_rip;
}

-- The trap that `HandleTrap` makes of the `ucontext_t` of a signal.
abbrev pub signal_trap : ℕ → (Greg → ℕ) → List ℕ → Segments → Ud → ℕ → Trap
signal_trap thread_id gregs callstack segments ud ilen = record {
  thread_id = thread_id;
  eflags = gregs reg_efl;
  callstack = callstack;
  segments = segments;
  context = convert_to_win_style_context gregs;
  ud = ud;
  ilen = ilen;
}

abbrev pub max_calls : ℕ
max_calls = 128

-- `g_Generation` is compared, and the thread's core and stack are renewed.
unfoldable pub refresh_thread : Trap → Tracer → ThreadState → ThreadState
refresh_thread trap p th = if th.generation == p.generation then th else record {
  generation = p.generation;
  stack_index = no_stack_index;
  logical_core_index = find_logical_core_index p.mappings trap.thread_id;
}

-- `core_index >= 0` of an `int`.
abbrev pub is_core : ℕ → Bool
is_core core_index = ltb core_index (2 ^ 31)

module _ (md5 : List ℕ → StackKey) where
  -- `if (~0u == s_ThreadState.m_StackIndex)`
  unfoldable pub find_stack : List ℕ → ℕ → StackStore → Option (ℕ × StackStore)
  find_stack callstack stack_index store =
      if stack_index == no_stack_index
      then if length callstack == 0 || length callstack == max_calls
        then none
        else some (insert_stack md5 (drop 1 callstack) store)
      else some (stack_index, store)

  -- From the call stack to `GenerateMemoryAccesses`.
  unfoldable pub trace_instruction : ℕ → Trap → ThreadState → Tracer → Option (ThreadState × Tracer)
  trace_instruction fuel trap th p = elim (find_stack trap.callstack th.stack_index p.store) [
    | none ↦ none
    | some found ↦
        elim (generate_memory_accesses fuel trap.segments th.logical_core_index trap.ud
          trap.context.rip trap.ilen trap.context found.0 p.do_ms_step p.trace) [
            | none ↦ none
            | some done ↦ some (
              record th { stack_index = done.0 },
              record {
                trace = done.2;
                store = found.1;
                mappings = p.mappings;
                generation = p.generation;
                do_ms_step = done.1;
              },
            )
          ]
  ]

  -- `HandleTrap`: the flags, the thread and the tracer.
  unfoldable pub handle_trap : ℕ → Trap → ThreadState → Tracer → Option (ℕ × ThreadState × Tracer)
  handle_trap fuel trap th p =
      if p.trace.trace_enabled == 0
      then some (trap.eflags - trap.eflags / 2 ^ 8 % 2 * 2 ^ 8, th, p)
      else let th' = refresh_thread trap p th in
        if is_core th'.logical_core_index
        then elim (trace_instruction fuel trap th' p) [
          | none ↦ none
          | some r ↦ some (trap.eflags, r.0, r.1)
        ]
        else some (trap.eflags, th', p)
