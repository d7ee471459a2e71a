-- ===== src/Lock.antt =====
-- `AutoSpinLock` of CacheSim/CacheSimCommon.inl, under any interleaving of its threads. A step of a thread
-- is one atomic action on `g_Lock`; the scheduler's choices are a list of threads.
pub mod Exclusion
pub mod Progress
use ig_cachesim.Common.{
  ℕ, zero, suc, ◌+◌, Bool, List, [], ◌∷◌, ◌==◌, if◌then◌else◌, get_or, set, replicate,
}

-- Where a thread is: outside a critical section, in the loop of the constructor with its `count`, or inside.
pub data Phase : Type 0 where
  outside inside : Phase
  spinning : (count : ℕ) → Phase

-- `g_Lock` and the threads
pub record Threads : Type 0 where
  pub lock : ℕ
  pub phases : List Phase

-- `AtomicCompareExchange(&g_Lock, 1, 0)`: the old value, and the new.
unfoldable pub atomic_compare_exchange : ℕ → ℕ → ℕ → ℕ × ℕ
atomic_compare_exchange dest exchange comparand =
    (dest, if dest == comparand then exchange else dest)

-- `if (count++ == 1000)`, after which `IG_ThreadYield` gives up the processor.
unfoldable pub next_count : ℕ → ℕ
next_count count = if count == 1000 then 0 else suc count

-- A test of the loop of the constructor.
unfoldable pub try_lock : ℕ → ℕ → ℕ × Phase
try_lock count lock =
    let (old, lock') = atomic_compare_exchange lock 1 0 in
    if old == 1 then (lock', spinning (next_count count)) else (lock', inside)

-- The next action of a thread: the constructor is entered, tests, or the destructor runs.
unfoldable pub act : Phase → ℕ → ℕ × Phase
act outside lock = (lock, spinning 0)
act (spinning count) lock = try_lock count lock
act inside lock = (0, outside)

unfoldable pub step : Threads → ℕ → Threads
step s i =
    let (lock', phase) = act (get_or s.phases i outside) s.lock in
    record { lock = lock'; phases = set s.phases i phase }

unfoldable pub run : Threads → List ℕ → Threads
run s [] = s
run s (i ∷ is) = run (step s i) is

abbrev pub idle : ℕ → Threads
idle n = record { lock = 0; phases = replicate n outside }
