-- ===== src/Tests/Traces.antt =====
-- The theorems about the counters of an instruction, at concrete inputs.
use ig_cachesim.Common.{◌≡◌, inl, some, List, [], ◌∷◌, arith}
use ig_cachesim.HashTable.{reset}
use ig_cachesim.HashTable.Laws.{reset-IsValid}
use ig_cachesim.Stacks.Keys.{rip_key}
use ig_cachesim.Jaguar
use ig_cachesim.Jaguar.Valid.{init-IsSim}
use ig_cachesim.Trace.{RipStats, MemOp, Trace, commit}
use ig_cachesim.Trace.Counts.{IsTrace}
use ig_cachesim.Trace.Commit.{AreInside, Commits, commit-Commits}

abbrev pub start : Trace
start = record { stats = reset; cache = Jaguar.init; trace_enabled = 1 }

pub start-IsTrace : IsTrace start
start-IsTrace = record { table = (reset-IsValid {V = RipStats}).0; sim = init-IsSim }

-- `movsq` at an address that straddles two lines, without a prefetch.
abbrev movs_read : List MemOp
movs_read = record { ea = 0x7c; sz = 8 } ∷ []

abbrev movs_write : List MemOp
movs_write = record { ea = 0x2000; sz = 8 } ∷ []

abbrev no_prefetch : MemOp
no_prefetch = record { ea = 0; sz = 0 }

movs-AreInside : AreInside 4 0x401000 2 no_prefetch movs_read movs_write
movs-AreInside = record {
  code = record { below = omega arith; enough = omega arith };
  prefetched = inl (omega arith);
  read = (record { below = omega arith; enough = omega arith }, tt);
  written = (record { below = omega arith; enough = omega arith }, tt);
}

commit-Commits_example :
    (r : Trace) × (commit 4 5 0x401000 2 7 no_prefetch movs_read movs_write start ≡ some r)
    × Commits 5
        (record { rip = 0x401000; stack_offset = 7 })
        2
        no_prefetch
        movs_read
        movs_write
        start
        r
commit-Commits_example =
    commit-Commits 4 5 0x401000 2 7 no_prefetch movs_read movs_write start start-IsTrace
      (λ e. ground (arith, e)) (unfold reset in omega arith) movs-AreInside
