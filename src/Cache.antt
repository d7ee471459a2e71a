-- ===== src/Cache.antt =====
-- `Cache<kCacheSizeBytes, kWays>` of CacheSim/CacheSimInternals.h: an array of sets, indexed by the
-- low bits of the line number. An address is a `uint64_t`.
pub mod Valid
pub mod Residency
pub mod History
use ig_cachesim.Common.{
  ℕ, zero, suc, ◌-◌, ◌*◌, ◌/◌, ◌%◌, ◌^◌, Bool, ◌&&◌, List, [], ◌==◌, get_or, set, replicate,
  bit_and,
}
use ig_cachesim.SetData.{SetData, access_set, invalidate_set}

-- The template's parameters.
pub record Geometry : Type 0 where
  pub cache_size_bytes : ℕ
  pub ways : ℕ

abbrev pub line_size : ℕ
line_size = 64

abbrev pub set_size_shift : ℕ
set_size_shift = 6

abbrev pub set_count : Geometry → ℕ
set_count g = g.cache_size_bytes / line_size / g.ways

abbrev pub set_mask : Geometry → ℕ
set_mask g = set_count g - 1

-- The three `static_assert`s; `n & ~(n - 1)` is `n` less its low bits.
unfoldable pub static_asserts : Geometry → Bool
static_asserts g =
    bit_and g.ways (g.ways - 1) == 0
    && (set_count g - bit_and (set_count g) (set_mask g)) == set_count g
    && set_count g * line_size * g.ways == g.cache_size_bytes

pub record Cache : Type 0 where
  pub sets : List SetData

-- `memset(m_Sets, 0, sizeof m_Sets)`
unfoldable pub init : Geometry → Cache
init g = record { sets = replicate (set_count g) (replicate g.ways 0) }

-- `addr >> kSetSizeShift`
abbrev pub line_of : ℕ → ℕ
line_of addr = addr / 2 ^ set_size_shift

-- `const uint32_t line_index = base & kSetMask`
unfoldable pub line_index : Geometry → ℕ → ℕ
line_index g base = bit_and base (set_mask g) % 2 ^ 32

-- `Access`: whether the access hit, and the cache after it.
unfoldable pub access : Geometry → Cache → ℕ → Bool × Cache
access g c addr =
    let base = line_of addr in
    let i = line_index g base in
    let (hit, s) = access_set g.ways (get_or c.sets i []) base in
    (hit, record { sets = set c.sets i s })

unfoldable pub invalidate : Geometry → Cache → ℕ → Cache
invalidate g c addr =
    let base = line_of addr in
    let i = line_index g base in
    record { sets = set c.sets i (invalidate_set g.ways (get_or c.sets i []) base) }
