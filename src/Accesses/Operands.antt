-- ===== src/Accesses/Operands.antt =====
-- The loop over an instruction's operands, beside a filter of them.
use mathlib.Core.List.{append-nil, append_assoc}
use ig_cachesim.Common.{
  ℕ, ◌+◌, ◌/◌, ◌≤◌, ◌⊎◌, ◌≡◌, All, length, refl, sym, ◌∙◌, not, Bool, false, ◌||◌, ◌<◌, ◌^◌, ◌&&◌,
  List, [], ◌∷◌, ◌++◌, arith, ◌==◌, if◌then◌else◌, inl, inr,
}
use ig_cachesim.Operand.{Reg, Context, Segments, ea_breaks, compute_ea}
use ig_cachesim.Trace.{MemOp}
use ig_cachesim.Accesses.{
  other_mnemonic, no_operand, mem, other_operand, UdOperand, access_read, access_write, Ud,
  operands, Accesses, data_r, data_w, operand_access, at_ea, breaks, operand_accesses,
  explicit_accesses, implicit_accesses, memory_accesses, no_accesses,
}

-- The memory operands before the first `UD_NONE`.
unfoldable pub mem_operands : List UdOperand → List UdOperand
mem_operands [] = []
mem_operands (op ∷ ops) = elim op.type [
  | no_operand ↦ []
  | mem ↦ op ∷ mem_operands ops
  | other_operand ↦ mem_operands ops
]

-- Those of exactly one kind of access whose address is not zero.
module _ (s : Segments) (pfx_seg : Reg) (ctx : Context) where
  unfoldable pub selected : ℕ → List UdOperand → List MemOp
  selected kind [] = []
  selected kind (op ∷ ops) =
      let ea = compute_ea s pfx_seg op.parts ctx in
      if op.access == kind && not (ea == 0)
      then record { ea = ea; sz = op.size / 8 } ∷ selected kind ops
      else selected kind ops

  operand_access-reads :
      (op : UdOperand) (ops : List UdOperand) (a : Accesses)
      → (operand_access s pfx_seg ctx op a).reads ++ selected access_read ops
        ≡ a.reads ++ selected access_read (op ∷ ops)
  unfolding operand_access selected data_r data_w at_ea
  operand_access-reads op ops a = ground (
    arith,
    append_assoc a.reads (record { ea = compute_ea s pfx_seg op.parts ctx; sz = op.size / 8 } ∷ [])
        (selected access_read ops),
  )

  operand_access-writes :
      (op : UdOperand) (ops : List UdOperand) (a : Accesses)
      → (operand_access s pfx_seg ctx op a).writes ++ selected access_write ops
        ≡ a.writes ++ selected access_write (op ∷ ops)
  unfolding operand_access selected data_r data_w at_ea
  operand_access-writes op ops a = ground (
    arith,
    append_assoc a.writes (record { ea = compute_ea s pfx_seg op.parts ctx; sz = op.size / 8 } ∷ [])
        (selected access_write ops),
  )

  append-selected_nil : (kind : ℕ) (l : List MemOp) → l ≡ l ++ selected kind []
  unfolding selected
  append-selected_nil kind l = sym (append-nil l)

  operand_accesses-reads :
      (ops : List UdOperand) (a : Accesses)
      → (operand_accesses s pfx_seg ctx ops a).reads
        ≡ a.reads ++ selected access_read (mem_operands ops)
  unfolding operand_accesses mem_operands
  operand_accesses-reads [] a = append-selected_nil access_read a.reads
  operand_accesses-reads (op ∷ ops) a = ground (
    arith,
    append-selected_nil access_read a.reads,
    operand_accesses-reads ops a,
    operand_accesses-reads ops (operand_access s pfx_seg ctx op a),
    operand_access-reads op (mem_operands ops) a,
  )

  operand_accesses-writes :
      (ops : List UdOperand) (a : Accesses)
      → (operand_accesses s pfx_seg ctx ops a).writes
        ≡ a.writes ++ selected access_write (mem_operands ops)
  unfolding operand_accesses mem_operands
  operand_accesses-writes [] a = append-selected_nil access_write a.writes
  operand_accesses-writes (op ∷ ops) a = ground (
    arith,
    append-selected_nil access_write a.writes,
    operand_accesses-writes ops a,
    operand_accesses-writes ops (operand_access s pfx_seg ctx op a),
    operand_access-writes op (mem_operands ops) a,
  )

  unfoldable pub operand_breaks : UdOperand → Bool
  operand_breaks op =
      (op.access == access_read || op.access == access_write)
      && (ea_breaks op.parts || breaks (compute_ea s pfx_seg op.parts ctx) (op.size / 8))

  -- Whether one of the operands, of exactly one kind of access, stops at a `DebugBreak`.
  unfoldable pub some_breaks : List UdOperand → Bool
  some_breaks [] = false
  some_breaks (op ∷ ops) = operand_breaks op || some_breaks ops

  operand_access-stopped :
      (op : UdOperand) (a : Accesses)
      → (operand_access s pfx_seg ctx op a).stopped ≡ (a.stopped || operand_breaks op)
  unfolding operand_access operand_breaks data_r data_w at_ea
  operand_access-stopped op a = ground arith

  operand_accesses-stopped :
      (ops : List UdOperand) (a : Accesses)
      → (operand_accesses s pfx_seg ctx ops a).stopped
        ≡ (a.stopped || some_breaks (mem_operands ops))
  unfolding operand_accesses mem_operands some_breaks
  operand_accesses-stopped [] a = ground arith
  operand_accesses-stopped (op ∷ ops) a = ground (
    arith,
    operand_accesses-stopped ops a,
    operand_accesses-stopped ops (operand_access s pfx_seg ctx op a),
    operand_access-stopped op a,
  )

  -- An operand of at least a byte, in the lower half of the address space, by known registers.
  pub record IsSound (op : UdOperand) : Type 0 where
    pub sized : 8 ≤ op.size
    pub low : compute_ea s pfx_seg op.parts ctx < 2 ^ 63
    pub known : ea_breaks op.parts ≡ false

  some_breaks_sound : (ops : List UdOperand) → All IsSound ops → some_breaks ops ≡ false
  unfolding some_breaks operand_breaks breaks
  some_breaks_sound [] h = refl
  some_breaks_sound (op ∷ ops) h =
      ground (arith, h.0.sized, h.0.low, h.0.known, some_breaks_sound ops h.1)

  pub length-selected : (kind : ℕ) (ops : List UdOperand) → length (selected kind ops) ≤ length ops
  unfolding selected
  length-selected kind [] = omega arith
  length-selected kind (op ∷ ops) = ground (arith, length-selected kind ops)

  -- Operands that are read and written are of neither kind.
  selected-both :
      (kind : ℕ) (ops : List UdOperand)
      → All (λ op. op.access ≡ access_read + access_write) ops
      → (kind ≡ access_read) ⊎ (kind ≡ access_write)
      → selected kind ops ≡ []
  unfolding selected
  selected-both kind [] h w = refl
  selected-both kind (op ∷ ops) h w = ground (arith, selected-both kind ops)

memory_accesses-lists :
    (s : Segments) (ud : Ud) (ctx : Context) (stack_index do_ms_step : ℕ)
    → ud.mnemonic ≡ other_mnemonic
    → ((memory_accesses s ud ctx stack_index do_ms_step).reads
        ≡ selected s ud.pfx_seg ctx access_read (mem_operands (operands ud)))
      × ((memory_accesses s ud ctx stack_index do_ms_step).writes
          ≡ selected s ud.pfx_seg ctx access_write (mem_operands (operands ud)))
unfolding memory_accesses explicit_accesses implicit_accesses
memory_accesses-lists s ud ctx stack_index do_ms_step other =
    let a = no_accesses stack_index do_ms_step in
    (
      rw (other, explicit_accesses, implicit_accesses)
          (operand_accesses-reads s ud.pfx_seg ctx (operands ud) a),
      rw (other, explicit_accesses, implicit_accesses)
          (operand_accesses-writes s ud.pfx_seg ctx (operands ud) a),
    )

-- For an instruction of none of the mnemonics that are named, each of whose memory operands before
-- the first empty one has at least a byte, an address below 2^63 and registers that `ReadReg`
-- knows: no `DebugBreak` is reached, and the instruction reads those of these operands that have
-- exactly the access `UD_OP_ACCESS_READ` and an address that is not zero, in their order, and
-- writes those that have exactly `UD_OP_ACCESS_WRITE`.
pub memory_accesses-selected :
    (s : Segments) (ud : Ud) (ctx : Context) (stack_index do_ms_step : ℕ)
    → ud.mnemonic ≡ other_mnemonic
    → All (IsSound s ud.pfx_seg ctx) (mem_operands (operands ud))
    → ((memory_accesses s ud ctx stack_index do_ms_step).stopped ≡ false)
      × ((memory_accesses s ud ctx stack_index do_ms_step).reads
          ≡ selected s ud.pfx_seg ctx access_read (mem_operands (operands ud)))
      × ((memory_accesses s ud ctx stack_index do_ms_step).writes
          ≡ selected s ud.pfx_seg ctx access_write (mem_operands (operands ud)))
unfolding memory_accesses explicit_accesses implicit_accesses
memory_accesses-selected s ud ctx stack_index do_ms_step other sound =
    let a = no_accesses stack_index do_ms_step in
    let lists = memory_accesses-lists s ud ctx stack_index do_ms_step other in
    let runs : (operand_accesses s ud.pfx_seg ctx (operands ud) a).stopped ≡ false =
      operand_accesses-stopped s ud.pfx_seg ctx (operands ud) a
      ∙ some_breaks_sound s ud.pfx_seg ctx (mem_operands (operands ud)) sound in
    (rw (other, explicit_accesses, implicit_accesses) runs, lists.0, lists.1)

-- An instruction of none of the mnemonics that are named, whose memory operands are all both read
-- and written, is recorded without any read or write.
pub memory_accesses-both :
    (s : Segments) (ud : Ud) (ctx : Context) (stack_index do_ms_step : ℕ)
    → ud.mnemonic ≡ other_mnemonic
    → All (λ op. op.access ≡ access_read + access_write) (mem_operands (operands ud))
    → ((memory_accesses s ud ctx stack_index do_ms_step).reads ≡ [])
      × ((memory_accesses s ud ctx stack_index do_ms_step).writes ≡ [])
memory_accesses-both s ud ctx stack_index do_ms_step other h =
    let m = memory_accesses-lists s ud ctx stack_index do_ms_step other in
    (
      m.0 ∙ selected-both s ud.pfx_seg ctx access_read (mem_operands (operands ud)) h (inl refl),
      m.1 ∙ selected-both s ud.pfx_seg ctx access_write (mem_operands (operands ud)) h (inr refl),
    )
