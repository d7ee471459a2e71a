-- ===== src/Tests/Caches.antt =====
-- Runs of the cache simulator: the cases of UnitTest/TestCacheSim.cpp, and the theorems at inputs.
use ig_cachesim.Common.{ℕ, ◌≡◌, refl, true, none, some, List, [], ◌∷◌}
use ig_cachesim.SetData
use ig_cachesim.Cache
use ig_cachesim.Cache.{Cache}
use ig_cachesim.Jaguar
use ig_cachesim.Jaguar.{
  AccessMode, read, code_read, write, AccessResult, d1_hit, i1_hit, l2_hit, l2_i_miss, l2_d_miss,
  JaguarCacheSim, jaguar_d1, jaguar_i1, jaguar_l2, is_code_read,
}

program : Unit {0}
unfolding SetData.find_way SetData.swap SetData.move_front SetData.shift_right SetData.shift_left
    SetData.access_set SetData.invalidate_set Cache.init Cache.line_index Cache.access
    Cache.invalidate Cache.static_asserts Jaguar.init Jaguar.kick_core Jaguar.kick_cores
    Jaguar.before_write Jaguar.classify Jaguar.access_l1 Jaguar.look_up Jaguar.access_module
    Jaguar.line_start Jaguar.access_lines Jaguar.access
program = tt

-- The results of a sequence of accesses to a fresh simulator.
results : JaguarCacheSim → List (ℕ × ℕ × ℕ × AccessMode) → List AccessResult
results sim [] = []
results sim ((core, addr, size, mode) ∷ rest) = elim (Jaguar.access 5 sim core addr size mode) [
  | none ↦ []
  | some (r, sim') ↦ r ∷ results sim' rest
]

basic_hit :
    results Jaguar.init ((0, 0x12345678abcd, 8, read) ∷ (0, 0x12345678abcd, 8, read) ∷ [])
    ≡ l2_d_miss ∷ d1_hit ∷ []
unfolding program results
basic_hit = refl

basic_code_hit :
    results Jaguar.init ((0, 0x12345678abcd, 8, code_read) ∷ (0, 0x12345678abcd, 8, code_read) ∷ [])
    ≡ l2_i_miss ∷ i1_hit ∷ []
unfolding program results
basic_code_hit = refl

basic_assoc :
    results Jaguar.init (
      (0, 0x40, 8, read)
      ∷ (0, 0x40, 8, read)
      ∷ (0, 0x8040, 8, read)
      ∷ (0, 0x40, 8, read)
      ∷ (0, 0x8040, 8, read)
      ∷ [])
    ≡ l2_d_miss ∷ d1_hit ∷ l2_d_miss ∷ d1_hit ∷ d1_hit ∷ []
unfolding program results
basic_assoc = refl

core_invalidating :
    results Jaguar.init (
      (0, 0x40, 8, read)
      ∷ (1, 0x40, 8, read)
      ∷ (2, 0x40, 8, read)
      ∷ (0, 0x40, 8, read)
      ∷ (0, 0x40, 8, write)
      ∷ (1, 0x40, 8, read)
      ∷ (2, 0x40, 8, read)
      ∷ (3, 0x40, 8, read)
      ∷ [])
    ≡ l2_d_miss ∷ l2_hit ∷ l2_hit ∷ d1_hit ∷ d1_hit ∷ l2_hit ∷ l2_hit ∷ l2_hit ∷ []
unfolding program results
core_invalidating = refl

core_invalidating_module :
    results Jaguar.init (
      (0, 0x40, 8, read)
      ∷ (5, 0x40, 8, write)
      ∷ (5, 0x40, 8, read)
      ∷ (0, 0x40, 8, read)
      ∷ (0, 0x40, 8, read)
      ∷ [])
    ≡ l2_d_miss ∷ l2_d_miss ∷ d1_hit ∷ l2_d_miss ∷ d1_hit ∷ []
unfolding program results
core_invalidating_module = refl

-- Eight bytes that end at the end of a line cost a second line.
one_line_too_many :
    results Jaguar.init ((0, 0x1078, 8, read) ∷ (0, 0x1080, 8, read) ∷ []) ≡ l2_d_miss ∷ d1_hit ∷ []
unfolding program results
one_line_too_many = refl

static_asserts_hold :
    (Cache.static_asserts jaguar_d1 ≡ true)
    × (Cache.static_asserts jaguar_i1 ≡ true)
    × (Cache.static_asserts jaguar_l2 ≡ true)
unfolding program
static_asserts_hold = (refl, refl, refl)
