-- ===== src/Session.antt =====
-- The calls of a program that is traced: `CacheSimInit`, `CacheSimStartCapture` and `CacheSimRemoveHandler` of
-- CacheSim/CacheSimLinux.cpp, and `CacheSimEndCapture` of CacheSim/CacheSimCommon.inl. Of the start, the part of the
-- parent process is modelled: the child attaches to the threads, and whether the parent's calls of `wait` return is an
-- argument. `DebugBreak` after a failed `sigaction` is passed.
pub mod Calls
use ig_cachesim.Common.{
  ℕ, suc, ◌+◌, ◌%◌, ◌^◌, Bool, true, false, not, Option, none, some, List, [], ◌∷◌, ◌==◌,
  if◌then◌else◌,
}
use ig_cachesim.HashTable.{reset}
use ig_cachesim.Jaguar
use ig_cachesim.Stacks.{no_stacks}
use ig_cachesim.Trace.{Trace}
use ig_cachesim.Capture.{ModuleInfo, ModuleList, File, Capture, end_capture}
use ig_cachesim.Handler.{Tracer}

-- The static state, with `g_SignalHandlerInstalled`.
pub record Session : Type 0 where
  pub tracer : Tracer
  pub modules : ModuleList
  pub handler_installed : Bool

-- `CacheSimInit`; what it reads of the executable's path goes to RecordModule.
unfoldable pub cache_sim_init : Session → Session
cache_sim_init s = record s {
  tracer = record {
    trace = record {
      stats = reset;
      cache = s.tracer.trace.cache;
      trace_enabled = s.tracer.trace.trace_enabled;
    };
    store = no_stacks;
    mappings = s.tracer.mappings;
    generation = s.tracer.generation;
    do_ms_step = s.tracer.do_ms_step;
  };
}

-- `CacheSimStartCapture`: what it returns and leaves, or `none` if it does not return. `waits_return` is whether the two
-- calls of `wait` do, in which the parent waits for the child to hook the threads and to exit.
unfoldable pub start_capture : (waits_return : Bool) → Session → Option (Bool × Session)
start_capture waits_return s =
    if not (s.tracer.trace.trace_enabled == 0)
    then some (false, s)
    else if waits_return
    then some (
      true,
      record {
        tracer = record {
          trace = record { stats = s.tracer.trace.stats; cache = Jaguar.init; trace_enabled = 1 };
          store = s.tracer.store;
          mappings = s.tracer.mappings;
          generation = (s.tracer.generation + 1) % 2 ^ 32;
          do_ms_step = s.tracer.do_ms_step;
        };
        modules = s.modules;
        handler_installed = true;
      },
    )
    else none

-- `CacheSimRemoveHandler`
unfoldable pub remove_handler : Session → Session
remove_handler s = record s { handler_installed = false }

abbrev pub capture_of : Session → Capture
capture_of s = record { trace = s.tracer.trace; store = s.tracer.store; modules = s.modules }

abbrev pub with_capture : Capture → Session → Session
with_capture c s = record s {
  tracer = record {
    trace = c.trace;
    store = c.store;
    mappings = s.tracer.mappings;
    generation = s.tracer.generation;
    do_ms_step = s.tracer.do_ms_step;
  };
  modules = c.modules;
}

-- The calls, with what the operating system gives to each.
pub data Call : Type 0 where
  init remove : Call
  start : (waits_return : Bool) → Call
  end : (save opened : Bool) → (listed : List ModuleInfo) → Call

-- A call; the loop over the keys has a round more than the count. The file is what was written.
unfoldable pub call : Call → Session → Option (Option File × Session)
call init s = some (none, cache_sim_init s)
call (start waits_return) s = elim (start_capture waits_return s) [
  | none ↦ none
  | some r ↦ some (none, r.1)
]
call remove s = some (none, remove_handler s)
call (end save opened listed) s =
    elim (end_capture (suc s.tracer.trace.stats.count) save opened listed (capture_of s)) [
      | none ↦ none
      | some r ↦ some (r.0, with_capture r.1 s)
    ]

unfoldable pub calls : List Call → Session → Option Session
calls [] s = some s
calls (c ∷ cs) s = elim (call c s) [ none ↦ none | some r ↦ calls cs r.1 ]
