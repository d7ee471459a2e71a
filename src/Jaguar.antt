-- ===== src/Jaguar.antt =====
-- `JaguarModule` and `JaguarCacheSim` of CacheSim/CacheSimInternals.h, with their `Access` of
-- CacheSim/CacheSimInternals.cpp: two modules of four cores, an L2 cache for each module, an L1 data
-- and an L1 code cache for each core. `m_OtherModule` points into `m_Modules`, so it is an index, and
-- `Access` of a module takes the whole simulator and the index of `this`.
pub mod Valid
pub mod Step
pub mod Kick
pub mod After
pub mod Lines
pub mod Access
pub mod Coherence
use ig_cachesim.Common.{
  ℕ, zero, suc, ◌+◌, ◌-◌, ◌*◌, ◌/◌, ◌%◌, ◌^◌, Bool, true, false, ◌&&◌, Option, none, some, List, [],
  ◌==◌, leb, ltb, if◌then◌else◌, get_or, set, replicate, bit_and, ◌∷◌,
}
use ig_cachesim.Cache
use ig_cachesim.Cache.{Cache, Geometry}

pub data AccessResult : Type 0 where
  d1_hit i1_hit l2_hit l2_i_miss l2_d_miss prefetch_hit_d1 prefetch_hit_l2 instructions_executed :
      AccessResult

-- The value of an enumerator: `kAccessResultCount` is 8.
abbrev pub to_nat : AccessResult → ℕ
to_nat d1_hit = 0
to_nat i1_hit = 1
to_nat l2_hit = 2
to_nat l2_i_miss = 3
to_nat l2_d_miss = 4
to_nat prefetch_hit_d1 = 5
to_nat prefetch_hit_l2 = 6
to_nat instructions_executed = 7

pub data AccessMode : Type 0 where
  read code_read write : AccessMode

abbrev pub is_write : AccessMode → Bool
is_write write = true
is_write _ = false

abbrev pub is_code_read : AccessMode → Bool
is_code_read code_read = true
is_code_read _ = false

abbrev pub jaguar_d1 : Geometry
jaguar_d1 = record { cache_size_bytes = 32 * 1024; ways = 8 }

abbrev pub jaguar_i1 : Geometry
jaguar_i1 = record { cache_size_bytes = 32 * 1024; ways = 2 }

abbrev pub jaguar_l2 : Geometry
jaguar_l2 = record { cache_size_bytes = 2 * 1024 * 1024; ways = 16 }

abbrev pub core_count : ℕ
core_count = 4

pub record JaguarModule : Type 0 where
  pub core_d1 : List Cache
  pub core_i1 : List Cache
  pub level2 : Cache
  pub other_module : ℕ

pub record JaguarCacheSim : Type 0 where
  pub modules : List JaguarModule

-- `JaguarModule::Init`
unfoldable pub init_module : ℕ → JaguarModule
init_module other = record {
  core_d1 = replicate core_count (Cache.init jaguar_d1);
  core_i1 = replicate core_count (Cache.init jaguar_i1);
  level2 = Cache.init jaguar_l2;
  other_module = other;
}

-- `JaguarCacheSim::Init`
unfoldable pub init : JaguarCacheSim
unfolding init_module
init = record { modules = init_module 1 ∷ init_module 0 ∷ [] }

-- What a read outside an array gives; `Valid` rules such a read out.
abbrev pub no_cache : Cache
no_cache = record { sets = [] }

abbrev pub no_module : JaguarModule
no_module = record { core_d1 = []; core_i1 = []; level2 = no_cache; other_module = 0 }

abbrev pub module_at : JaguarCacheSim → ℕ → JaguarModule
module_at sim i = get_or sim.modules i no_module

abbrev pub set_module : JaguarCacheSim → ℕ → JaguarModule → JaguarCacheSim
set_module sim i m = record { modules = set sim.modules i m }

-- One round of the loop that kicks the line out of the L1 caches: `continue` at the writing core.
unfoldable pub kick_core : ℕ → ℕ → ℕ → JaguarModule → JaguarModule
kick_core i core addr m = if i == core then m else record m {
  core_d1 = set m.core_d1 i (Cache.invalidate jaguar_d1 (get_or m.core_d1 i no_cache) addr);
  core_i1 = set m.core_i1 i (Cache.invalidate jaguar_i1 (get_or m.core_i1 i no_cache) addr);
}

-- `for (int i = 0; i < 4; ++i)`, with the rounds left.
unfoldable pub kick_cores : ℕ → ℕ → ℕ → ℕ → JaguarModule → JaguarModule
kick_cores zero i core addr m = m
kick_cores (suc n) i core addr m = kick_cores n (suc i) core addr (kick_core i core addr m)

-- The block under `if (kWrite == mode)`.
unfoldable pub before_write : JaguarCacheSim → ℕ → ℕ → ℕ → JaguarCacheSim
before_write sim this core addr =
    let kicked = set_module sim this (kick_cores 4 0 core addr (module_at sim this)) in
    let other = (module_at kicked this).other_module in
    let m = module_at kicked other in
    set_module kicked other (record m { level2 = Cache.invalidate jaguar_l2 m.level2 addr })

-- The result, from what the L2 and the L1 answered.
unfoldable pub classify : Bool → Bool → AccessMode → AccessResult
classify l2 l1 mode =
    if l2 && l1
    then (if is_code_read mode then i1_hit else d1_hit)
    else if l2
    then l2_hit
    else if is_code_read mode
    then l2_i_miss
    else l2_d_miss

-- The access to the L1 cache that the mode selects, of the accessing core.
unfoldable pub access_l1 : JaguarModule → ℕ → ℕ → AccessMode → Bool × JaguarModule
access_l1 m core addr mode =
    if is_code_read mode
    then (let (hit, l1) = Cache.access jaguar_i1 (get_or m.core_i1 core no_cache) addr in
        (hit, record m { core_i1 = set m.core_i1 core l1 }))
    else (let (hit, l1) = Cache.access jaguar_d1 (get_or m.core_d1 core no_cache) addr in
        (hit, record m { core_d1 = set m.core_d1 core l1 }))

-- From "Start at the L2" on.
unfoldable pub look_up : JaguarModule → ℕ → ℕ → AccessMode → AccessResult × JaguarModule
look_up m core addr mode =
    let (hit2, l2) = Cache.access jaguar_l2 m.level2 addr in
    let (hit1, m') = access_l1 (record m { level2 = l2 }) core addr mode in
    (classify hit2 hit1 mode, m')

-- `JaguarModule::Access`
unfoldable pub access_module :
    JaguarCacheSim → ℕ → ℕ → ℕ → AccessMode → AccessResult × JaguarCacheSim
access_module sim this core addr mode =
    let ready = if is_write mode then before_write sim this core addr else sim in
    let (r, m) = look_up (module_at ready this) core addr mode in (r, set_module ready this m)

-- `x & ~63ull`
unfoldable pub line_start : ℕ → ℕ
line_start x = bit_and x (2 ^ 64 - 64)

-- The loop over the lines of an access. `none` means that the fuel ran out.
unfoldable pub access_lines :
    ℕ
    → JaguarCacheSim
    → ℕ
    → ℕ
    → AccessMode
    → ℕ
    → ℕ
    → AccessResult
    → Option (AccessResult × JaguarCacheSim)
access_lines zero sim module_index core mode line_base line_end r = none
access_lines (suc fuel) sim module_index core mode line_base line_end r =
    let rest =
      let (r2, sim') = access_module sim module_index core line_base mode in
      access_lines fuel sim' module_index core mode ((line_base + 64) % 2 ^ 64) line_end
        (if ltb (to_nat r) (to_nat r2) then r2 else r) in
    if leb line_base line_end then rest else some (r, sim)

-- `JaguarCacheSim::Access`, at a core index that is not negative.
unfoldable pub access :
    ℕ → JaguarCacheSim → ℕ → ℕ → ℕ → AccessMode → Option (AccessResult × JaguarCacheSim)
access fuel sim core_index addr size mode =
    access_lines fuel sim (bit_and (core_index / 4) 1) (bit_and core_index 3) mode (line_start addr)
      (line_start ((addr + size) % 2 ^ 64)) d1_hit
