-- ===== src/SetData.antt =====
-- One set of a set-associative cache: the array `m_Addr` of `SetData` in
-- CacheSim/CacheSimInternals.h, most recently used way first, and what the loops of
-- `Cache::Access` and `Cache::Invalidate` do to it. A loop that runs to `kWays` recurs on the rounds
-- that it has left.
pub mod Loops
pub mod Lru
pub mod Unique
use ig_cachesim.Common.{
  ℕ, zero, suc, ◌-◌, Bool, true, false, Option, none, some, List, ◌==◌, if◌then◌else◌, get_or, set,
}

-- `m_Addr[kWays]`: the line numbers that are cached, or zero for an empty way.
abbrev pub SetData : Type 0
SetData = List ℕ

-- The search for the way that holds `base`, from `way` on.
unfoldable pub find_way : ℕ → ℕ → SetData → ℕ → Option ℕ
find_way zero way s base = none
find_way (suc n) way s base =
    let rest = find_way n (suc way) s base in if get_or s way 0 == base then some way else rest

-- `std::swap(set->m_Addr[i], set->m_Addr[j])`
unfoldable pub swap : SetData → ℕ → ℕ → SetData
swap s i j = set (set s i (get_or s j 0)) j (get_or s i 0)

-- `while (way > 0) { swap(m_Addr[way], m_Addr[way - 1]); --way; }`
unfoldable pub move_front : ℕ → SetData → SetData
move_front zero s = s
move_front (suc way) s = move_front way (swap s (suc way) way)

-- `for (i = kWays - 1; i > 0; --i) m_Addr[i] = m_Addr[i - 1];`
unfoldable pub shift_right : ℕ → SetData → SetData
shift_right zero s = s
shift_right (suc i) s = shift_right i (set s (suc i) (get_or s i 0))

-- `for (; rw < kWays - 1; ++rw) m_Addr[rw] = m_Addr[rw + 1];`, with the rounds left.
unfoldable pub shift_left : ℕ → ℕ → SetData → SetData
shift_left zero rw s = s
shift_left (suc n) rw s = shift_left n (suc rw) (set s rw (get_or s (suc rw) 0))

-- The body of `Cache::Access` on the set: whether the line was there, and the new set.
unfoldable pub access_set : ℕ → SetData → ℕ → Bool × SetData
access_set ways s base = elim (find_way ways 0 s base) [
  | some way ↦ (true, move_front way s)
  | none ↦ (false, set (shift_right (ways - 1) s) 0 base)
]

-- The body of `Cache::Invalidate` on the set.
unfoldable pub invalidate_set : ℕ → SetData → ℕ → SetData
invalidate_set ways s base = elim (find_way ways 0 s base) [
  | some way ↦ set (shift_left (ways - 1 - way) way s) (ways - 1) 0
  | none ↦ s
]
