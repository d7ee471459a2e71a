-- ===== src/Tests/Witness.antt =====
-- The theorems about the caches, at concrete inputs.
use ig_cachesim.Common.{ℕ, ◌-◌, ◌^◌, ◌≡◌, none, some, [], ◌∷◌, ◌++◌, arith, get_or, take, replicate}
use ig_cachesim.SetData.Lru.{recency}
use ig_cachesim.Cache
use ig_cachesim.Cache.{Cache, line_of, line_index, set_count}
use ig_cachesim.Cache.Valid.{IsValid, init-IsValid, access-IsValid}
use ig_cachesim.Cache.History.{run, lines_in, run-recency}
use ig_cachesim.Jaguar
use ig_cachesim.Jaguar.{
  read, code_read, write, d1_hit, i1_hit, l2_hit, l2_d_miss, jaguar_d1, jaguar_l2, is_code_read,
  classify, module_at, access_module, JaguarCacheSim,
}
use ig_cachesim.Jaguar.Valid.{IsSim, init-IsSim, d1_geometry}
use ig_cachesim.Jaguar.Step.{access_module-IsSim}
use ig_cachesim.Jaguar.After.{access_module-After}
use ig_cachesim.Jaguar.Coherence.{
  next, result, result-expected, result-next_write, result-next_stale,
}
use ig_cachesim.Jaguar.Lines.{lines_of, byte_lines, touch_lines}
use ig_cachesim.Jaguar.Access.{access-touch_lines, access_top, access-touch_bytes}

-- A line, and one of the same set of the data cache.
abbrev la : ℕ
la = 0x40

abbrev lb : ℕ
lb = 0x8040

abbrev fresh : Cache
fresh = Cache.init jaguar_d1

abbrev warm : Cache
warm = (Cache.access jaguar_d1 fresh la).1

fresh-IsValid : IsValid jaguar_d1 fresh
fresh-IsValid = init-IsValid d1_geometry

warm-IsValid : IsValid jaguar_d1 warm
warm-IsValid = access-IsValid d1_geometry la fresh-IsValid

access-IsValid_example : IsValid jaguar_d1 (Cache.access jaguar_d1 warm lb).1
access-IsValid_example = access-IsValid d1_geometry lb warm-IsValid

run-recency_example :
    get_or (run jaguar_d1 fresh (la ∷ lb ∷ la ∷ [])).sets 1 []
    ≡ take 8 (recency (replicate 8 0) (lines_in jaguar_d1 1 (la ∷ lb ∷ la ∷ [])))
run-recency_example = run-recency d1_geometry 1 (la ∷ lb ∷ la ∷ []) (omega arith)

access_module-IsSim_example : IsSim (next Jaguar.init 0 2 la write)
access_module-IsSim_example =
    access_module-IsSim 0 2 la write init-IsSim (omega arith) (omega arith)

-- Core 2 of the module has read the line; core 1 has not.
result-expected_example : result (next Jaguar.init 0 2 la read) 0 1 la read ≡ l2_hit
unfolding ig_cachesim.Jaguar.Coherence.expected access_module Jaguar.init Jaguar.look_up
    Jaguar.access_l1 Cache.access Cache.init ig_cachesim.Cache.line_index
    ig_cachesim.SetData.access_set ig_cachesim.SetData.find_way ig_cachesim.SetData.shift_right
result-expected_example =
    result-expected 0 1 la (access_module-IsSim 0 2 la read init-IsSim (omega arith) (omega arith))
      (omega arith) (omega arith) read

result-next_write_example : result (next Jaguar.init 0 0 la write) 0 3 la read ≡ l2_hit
result-next_write_example =
    result-next_write 0 0 la init-IsSim (omega arith) (omega arith) 3 read (omega arith)
      (omega arith) (omega arith)

-- Core 2 of module 1 has read the line.
abbrev shared : JaguarCacheSim
shared = next Jaguar.init 1 2 la read

shared-IsSim : IsSim shared
shared-IsSim = access_module-IsSim 1 2 la read init-IsSim (omega arith) (omega arith)

result-next_stale_example :
    result (next (next shared 0 0 la write) 1 3 la read) 1 2 la read ≡ d1_hit
result-next_stale_example =
    result-next_stale 0 0 la shared-IsSim (omega arith) (omega arith) 2 3 (omega arith)
      (omega arith) (omega arith)
      (access_module-After 1 2 la init-IsSim (omega arith) (omega arith) read).l1

access-touch_lines_example :
    Jaguar.access 4 Jaguar.init 5 0x7c 8 read
    ≡ some (touch_lines Jaguar.init 1 1 read (lines_of 0x7c 8) d1_hit)
access-touch_lines_example =
    access-touch_lines 4 5 0x7c 8 Jaguar.init read (omega arith) (omega arith)

access_top_example : Jaguar.access 9 Jaguar.init 0 (2 ^ 64 - 100) 40 read ≡ none
access_top_example = access_top 9 0 (2 ^ 64 - 100) 40 Jaguar.init read (omega arith) (omega arith)

access-touch_bytes_example :
    Jaguar.access 4 Jaguar.init 5 0x78 8 read
    ≡ some (touch_lines Jaguar.init 1 1 read (byte_lines 0x78 8 ++ (0x80 ∷ [])) d1_hit)
access-touch_bytes_example =
    access-touch_bytes 4 5 0x78 8 Jaguar.init read (omega arith) (omega arith) (omega arith)
