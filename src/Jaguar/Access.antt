-- ===== src/Jaguar/Access.antt =====
-- `JaguarCacheSim::Access` for each range of its arguments, and the lines that it touches.
use ig_cachesim.Common.{
  ℕ, zero, suc, ◌+◌, ◌-◌, ◌*◌, ◌/◌, ◌%◌, ◌^◌, ◌≤◌, ◌<◌, ◌≡◌, refl, ap, ◌∙◌, none, some, List, [],
  ◌∷◌, ◌++◌, arith, ◌==◌, if◌then◌else◌, bit_and, bit_and_mask, Bool-cases, inl, inr,
}
use mathlib.Core.List.{append-nil}
use ig_cachesim.Jaguar.{AccessMode, AccessResult, d1_hit, JaguarCacheSim, access}
use ig_cachesim.Jaguar.Valid.{IsSim}
use ig_cachesim.Jaguar.Step.{access_module-IsSim}
use ig_cachesim.Jaguar.Lines.{
  lines_from, lines_of, byte_lines, touch_lines, line_start_lem, access_lines_lem, access_lines_top,
  access_lines_stop,
}

module _ (fuel core_index addr size : ℕ) (sim : JaguarCacheSim) (mode : AccessMode) where
  -- Below the last line of the address space the loop ends, given a round more than there are
  -- lines. The module `core_index / 4 % 2` is accessed by its core `core_index % 4`, once for each
  -- line from that of `addr` to that of `addr + size`, and the result is the worst of the lines'
  -- results.
  pub access-touch_lines :
      addr + size < 2 ^ 64 - 64
      → (addr + size) / 64 + 1 - addr / 64 < fuel
      → access fuel sim core_index addr size mode
        ≡ some
            (touch_lines sim (core_index / 4 % 2) (core_index % 4) mode (lines_of addr size) d1_hit)
  unfolding access lines_of
  access-touch_lines top enough =
      let end : (addr + size) % 2 ^ 64 ≡ addr + size = omega arith in
      rw
        (
          end,
          line_start_lem addr (omega arith),
          line_start_lem (addr + size) (omega arith),
          bit_and_mask 1 (core_index / 4),
          bit_and_mask 2 core_index,
        )
        (access_lines_lem (core_index / 4 % 2) (core_index % 4) mode
          ((addr + size) / 64 + 1 - addr / 64) fuel (addr / 64) ((addr + size) / 64) sim d1_hit refl
          (omega arith) (omega arith) enough)

  -- An access whose end lies in the last line of the address space does not return, whatever the
  -- fuel.
  pub access_top :
      addr < 2 ^ 64
      → 2 ^ 64 - 64 ≤ (addr + size) % 2 ^ 64
      → access fuel sim core_index addr size mode ≡ none
  unfolding access
  access_top small top =
      let end : (addr + size) % 2 ^ 64 / 64 * 64 ≡ 2 ^ 64 - 64 = omega arith in
      rw (line_start_lem addr small, line_start_lem ((addr + size) % 2 ^ 64) (omega arith), end)
        (access_lines_top (bit_and (core_index / 4) 1) (bit_and core_index 3) mode fuel
          (addr / 64 * 64) sim d1_hit (omega arith) (omega arith))

  -- An access that runs past the end of the address space, to a line before its own, touches no
  -- line and reports a hit.
  pub access_wrapped :
      addr < 2 ^ 64
      → (addr + size) % 2 ^ 64 / 64 < addr / 64
      → 0 < fuel
      → access fuel sim core_index addr size mode ≡ some (d1_hit, sim)
  unfolding access
  access_wrapped small past pos =
      rw (line_start_lem addr small, line_start_lem ((addr + size) % 2 ^ 64) (omega arith))
        (access_lines_stop (bit_and (core_index / 4) 1) (bit_and core_index 3) mode fuel _ _ sim
          d1_hit pos (omega arith))

lines_from-suc :
    (n base last : ℕ)
    → base + n * 64 ≡ last
    → lines_from (suc n) base ≡ lines_from n base ++ (last ∷ [])
unfolding lines_from
lines_from-suc zero base last e = let e' : base ≡ last = omega arith in rw e'
lines_from-suc (suc n) base last e =
    ap (λ (l : List ℕ). base ∷ l) (lines_from-suc n (base + 64) last (omega arith))

-- The lines from that of `addr` to that of `addr + size` are those in which the bytes of an access
-- of at least one byte lie, and, if the access ends at the end of a line, the line after them too.
lines_of-byte_lines :
    (addr size : ℕ)
    → 0 < size
    → lines_of addr size
      ≡ byte_lines addr size ++ (if (addr + size) % 64 == 0 then (addr + size) ∷ [] else [])
unfolding lines_of byte_lines
lines_of-byte_lines addr size pos = elim (Bool-cases ((addr + size) % 64 == 0)) [
  | inl e ↦
      let more : (addr + size) / 64 + 1 - addr / 64 ≡ suc ((addr + size - 1) / 64 + 1 - addr / 64) =
        ground arith in
      rw (e, more)
        (lines_from-suc ((addr + size - 1) / 64 + 1 - addr / 64) (addr / 64 * 64) (addr + size)
          (ground arith))
  | inr e ↦
      let same : (addr + size) / 64 ≡ (addr + size - 1) / 64 = ground arith in
      rw (e, same, append-nil)
]

-- Below the last line of the address space, and given a round more than there are lines, an access
-- of at least one byte accesses the module `core_index / 4 % 2` by its core `core_index % 4`, once
-- for each line in which a byte of the access lies, and then, if the access ends at the end of a
-- line, the line after it too. The result is the worst of the lines' results.
pub access-touch_bytes :
    (fuel core_index addr size : ℕ) (sim : JaguarCacheSim) (mode : AccessMode)
    → 0 < size
    → addr + size < 2 ^ 64 - 64
    → (addr + size) / 64 + 1 - addr / 64 < fuel
    → access fuel sim core_index addr size mode
      ≡ some (
          touch_lines sim
            (core_index / 4 % 2)
            (core_index % 4)
            mode
            (byte_lines addr size ++ (if (addr + size) % 64 == 0 then (addr + size) ∷ [] else []))
            d1_hit)
access-touch_bytes fuel core_index addr size sim mode pos top enough =
    access-touch_lines fuel core_index addr size sim mode top enough
    ∙ rw (lines_of-byte_lines addr size pos)

-- Accesses of a core to any lines keep a well-formed simulator well formed.
pub touch_lines-IsSim :
    (this core : ℕ) (mode : AccessMode) (bs : List ℕ) (r : AccessResult) {sim : JaguarCacheSim}
    → IsSim sim
    → this < 2
    → core < 4
    → IsSim (touch_lines sim this core mode bs r).1
unfolding touch_lines
touch_lines-IsSim this core mode [] r v lt h = v
touch_lines-IsSim this core mode (b ∷ bs) r v lt h =
    touch_lines-IsSim this core mode bs _ (access_module-IsSim this core b mode v lt h) lt h
