-- ===== src/Accesses/Room.antt =====
-- Both switches of `GenerateMemoryAccesses` against the size of its arrays.
use ig_cachesim.Common.{ℕ, suc, ◌≤◌, ◌≡◌, ◌⊎◌, refl, inl, inr, length, arith}
use ig_cachesim.Operand.{Context, Segments, compute_ea}
use ig_cachesim.Accesses.{
  Mnemonic, pause, lea, nop, prefetch, prefetchnta, prefetcht0, prefetcht1, prefetcht2, movntq,
  movntdq, movntdqa, fxsave, fxrstor, Ud, operands, Accesses, no_accesses, at_ea, prefetch_access,
  explicit_accesses, implicit_accesses, memory_accesses,
}
use ig_cachesim.Accesses.Operands.{mem_operands}
use ig_cachesim.Accesses.Bounds.{
  AreAtMost, weaken, at_ea-AreAtMost, data_r-AreAtMost, data_w-AreAtMost,
  implicit_accesses-AreAtMost, operand_accesses-AreAtMost,
}

-- The counts stay where only other fields change.
same_lists :
    {r w : ℕ} {a b : Accesses}
    → AreAtMost r w a
    → b.reads ≡ a.reads
    → b.writes ≡ a.writes
    → AreAtMost r w b
same_lists h e f = record {
  reads = rw e h.reads;
  writes = rw f h.writes;
  real_reads = rw e h.real_reads;
  real_writes = rw f h.real_writes;
}

explicit_accesses-AreAtMost :
    (m : Mnemonic) (s : Segments) (ud : Ud) (ctx : Context) (a : Accesses)
    → AreAtMost 1 1 a
    → AreAtMost
        (suc (length (mem_operands (operands ud))))
        (suc (length (mem_operands (operands ud))))
        (explicit_accesses m s ud ctx a)
      ⊎ AreAtMost 2 2 (explicit_accesses m s ud ctx a)
unfolding explicit_accesses prefetch_access at_ea
explicit_accesses-AreAtMost pause s ud ctx a h =
    inr (same_lists (weaken h (omega arith) (omega arith)) refl refl)
explicit_accesses-AreAtMost lea s ud ctx a h = inr (weaken h (omega arith) (omega arith))
explicit_accesses-AreAtMost nop s ud ctx a h = inr (weaken h (omega arith) (omega arith))
explicit_accesses-AreAtMost prefetch s ud ctx a h =
    inr (same_lists (weaken h (omega arith) (omega arith)) refl refl)
explicit_accesses-AreAtMost prefetchnta s ud ctx a h =
    inr (same_lists (weaken h (omega arith) (omega arith)) refl refl)
explicit_accesses-AreAtMost prefetcht0 s ud ctx a h =
    inr (same_lists (weaken h (omega arith) (omega arith)) refl refl)
explicit_accesses-AreAtMost prefetcht1 s ud ctx a h =
    inr (same_lists (weaken h (omega arith) (omega arith)) refl refl)
explicit_accesses-AreAtMost prefetcht2 s ud ctx a h =
    inr (same_lists (weaken h (omega arith) (omega arith)) refl refl)
explicit_accesses-AreAtMost movntq s ud ctx a h = inr (
    weaken
      (data_w-AreAtMost (compute_ea s ud.pfx_seg ud.operand0.parts ctx) 8 1 1 (at_ea ud.operand0 a)
        (at_ea-AreAtMost ud.operand0 a h))
      (omega arith) (omega arith))
explicit_accesses-AreAtMost movntdq s ud ctx a h = inr (
    weaken
      (data_w-AreAtMost (compute_ea s ud.pfx_seg ud.operand0.parts ctx) 16 1 1 (at_ea ud.operand0 a)
        (at_ea-AreAtMost ud.operand0 a h))
      (omega arith) (omega arith))
explicit_accesses-AreAtMost movntdqa s ud ctx a h = inr (
    weaken
      (data_w-AreAtMost (compute_ea s ud.pfx_seg ud.operand0.parts ctx) 16 1 1 (at_ea ud.operand0 a)
        (at_ea-AreAtMost ud.operand0 a h))
      (omega arith) (omega arith))
explicit_accesses-AreAtMost fxsave s ud ctx a h = inr (
    weaken
      (data_w-AreAtMost (compute_ea s ud.pfx_seg ud.operand0.parts ctx) 512 1 1
        (at_ea ud.operand0 a) (at_ea-AreAtMost ud.operand0 a h))
      (omega arith) (omega arith))
explicit_accesses-AreAtMost fxrstor s ud ctx a h = inr (
    weaken
      (data_r-AreAtMost (compute_ea s ud.pfx_seg ud.operand0.parts ctx) 512 1 1
        (at_ea ud.operand0 a) (at_ea-AreAtMost ud.operand0 a h))
      (omega arith) (omega arith))
explicit_accesses-AreAtMost _ s ud ctx a h = inl (
    weaken (operand_accesses-AreAtMost s ud.pfx_seg ctx (operands ud) 1 1 a h) (omega arith)
      (omega arith))

-- An instruction with at most three memory operands has at most four reads and four writes, which
-- the two arrays hold, and none of them at address zero.
pub memory_accesses-AreAtMost :
    (s : Segments) (ud : Ud) (ctx : Context) (stack_index do_ms_step : ℕ)
    → length (mem_operands (operands ud)) ≤ 3
    → AreAtMost 4 4 (memory_accesses s ud ctx stack_index do_ms_step)
unfolding memory_accesses
memory_accesses-AreAtMost s ud ctx stack_index do_ms_step few =
    let start = no_accesses stack_index do_ms_step in
    let i =
      implicit_accesses-AreAtMost ud.mnemonic ud ctx start
        (record { reads = omega arith; writes = omega arith; real_reads = tt; real_writes = tt }) in
    elim (explicit_accesses-AreAtMost ud.mnemonic s ud ctx
      (implicit_accesses ud.mnemonic ud ctx start) i) [
        | inl h ↦ weaken h (omega (arith, few)) (omega (arith, few))
        | inr h ↦ weaken h (omega arith) (omega arith)
      ]
