-- ===== src/Jaguar/Lines.antt =====
-- `JaguarCacheSim::Access`: the loop over the cache lines of an access, and the lines it touches.
use ig_cachesim.Common.{
  ℕ, zero, suc, ◌+◌, ◌-◌, ◌*◌, ◌/◌, ◌%◌, ◌^◌, ◌≤◌, ◌<◌, ◌≡◌, refl, true, false, none, some, List,
  [], ◌∷◌, arith, leb, ltb, if◌then◌else◌, bit_and_line_mask,
}
use ig_cachesim.Jaguar.{
  AccessMode, AccessResult, to_nat, JaguarCacheSim, access_module, line_start, access_lines,
}

-- `n` lines in a row.
unfoldable pub lines_from : ℕ → ℕ → List ℕ
lines_from zero base = []
lines_from (suc n) base = base ∷ lines_from n (base + 64)

-- The lines from that of `addr` to that of `addr + size`, the last one included.
unfoldable pub lines_of : ℕ → ℕ → List ℕ
unfolding lines_from
lines_of addr size = lines_from ((addr + size) / 64 + 1 - addr / 64) (addr / 64 * 64)

-- The lines in which the `size` bytes from `addr` on lie.
unfoldable pub byte_lines : ℕ → ℕ → List ℕ
unfolding lines_from
byte_lines addr size = lines_from ((addr + size - 1) / 64 + 1 - addr / 64) (addr / 64 * 64)

-- The specification: one access to the module for each line, and the worst of their results.
unfoldable pub touch_lines :
    JaguarCacheSim → ℕ → ℕ → AccessMode → List ℕ → AccessResult → AccessResult × JaguarCacheSim
touch_lines sim this core mode [] r = (r, sim)
touch_lines sim this core mode (b ∷ bs) r =
    let (r2, sim') = access_module sim this core b mode in
    touch_lines sim' this core mode bs (if ltb (to_nat r) (to_nat r2) then r2 else r)

pub line_start_lem : (x : ℕ) → x < 2 ^ 64 → line_start x ≡ x / 64 * 64
unfolding line_start
line_start_lem x h = bit_and_line_mask x h

module _ (this core : ℕ) (mode : AccessMode) where
  pub access_lines_lem :
      (n fuel p q : ℕ) (sim : JaguarCacheSim) (r : AccessResult)
      → q + 1 - p ≡ n
      → q * 64 + 64 < 2 ^ 64
      → p ≤ q + 1
      → n < fuel
      → access_lines fuel sim this core mode (p * 64) (q * 64) r
        ≡ some (touch_lines sim this core mode (lines_from n (p * 64)) r)
  unfolding access_lines touch_lines lines_from
  access_lines_lem n zero p q sim r e top le enough = absurd (omega arith)
  access_lines_lem zero (suc fuel) p q sim r e top le enough =
      let past : leb (p * 64) (q * 64) ≡ false = ground arith in rw past
  access_lines_lem (suc n) (suc fuel) p q sim r e top le enough =
      let inside : leb (p * 64) (q * 64) ≡ true = ground arith in
      let step : (p * 64 + 64) % 2 ^ 64 ≡ (p + 1) * 64 = omega arith in
      let next : p * 64 + 64 ≡ (p + 1) * 64 = omega arith in
      rw (inside, step, next)
        (access_lines_lem n fuel (p + 1) q _ _ (omega arith) top (omega arith) (omega arith))

  -- With the last line at the top of the address space the test never fails.
  pub access_lines_top :
      (fuel line : ℕ) (sim : JaguarCacheSim) (r : AccessResult)
      → line ≤ 2 ^ 64 - 64
      → line % 64 ≡ 0
      → access_lines fuel sim this core mode line (2 ^ 64 - 64) r ≡ none
  unfolding access_lines
  access_lines_top zero line sim r h m = refl
  access_lines_top (suc fuel) line sim r h m =
      let inside : leb line (2 ^ 64 - 64) ≡ true = ground arith in
      rw inside (access_lines_top fuel ((line + 64) % 2 ^ 64) _ _ (omega arith) (omega arith))

  -- A first line behind the last one ends the loop at once.
  pub access_lines_stop :
      (fuel line line_end : ℕ) (sim : JaguarCacheSim) (r : AccessResult)
      → 0 < fuel
      → line_end < line
      → access_lines fuel sim this core mode line line_end r ≡ some (r, sim)
  unfolding access_lines
  access_lines_stop zero line line_end sim r pos past = absurd (omega arith)
  access_lines_stop (suc fuel) line line_end sim r pos past =
      let outside : leb line line_end ≡ false = ground arith in rw outside
