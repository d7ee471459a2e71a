-- ===== src/Accesses.antt =====
-- `GenerateMemoryAccesses` of CacheSim/CacheSimCommon.inl up to its lock: the memory accesses of one
-- decoded instruction. The instruction is what the disassembler leaves in `ud_t`, as far as the code
-- reads it. `DebugBreak` sets `stopped`, and what would come after it is not looked at any more. The pause
-- of a `pause` instruction is not modelled.
pub mod Operands
pub mod Bounds
pub mod Room
pub mod Generate
use ig_cachesim.Common.{
  ℕ, ◌+◌, ◌-◌, ◌/◌, ◌%◌, ◌^◌, Bool, false, ◌||◌, ltb, not, List, [], ◌∷◌, ◌++◌, ◌==◌, if◌then◌else◌,
}
use ig_cachesim.Operand.{Reg, no_reg, Context, Operand, Segments, ea_breaks, compute_ea}
use ig_cachesim.Trace.{MemOp}

-- The values of `ud_mnemonic_code` that the code names, and one for all others.
pub data Mnemonic : Type 0 where
  lodsb lodsw lodsd lodsq scasb scasw scasd scasq : Mnemonic
  stosb stosw stosd stosq movsb movsw movsd movsq : Mnemonic
  push pop call ret : Mnemonic
  pause lea nop : Mnemonic
  prefetch prefetchnta prefetcht0 prefetcht1 prefetcht2 : Mnemonic
  movntq movntdq movntdqa fxsave fxrstor other_mnemonic : Mnemonic

-- `UD_NONE`, `UD_OP_MEM`, and all other types of an operand.
pub data OperandType : Type 0 where
  no_operand mem other_operand : OperandType

-- `ud_operand_t`
pub record UdOperand : Type 0 where
  pub type : OperandType
  pub size : ℕ
  pub access : ℕ
  pub parts : Operand

-- `UD_OP_ACCESS_READ` and `UD_OP_ACCESS_WRITE`, which an operand combines by `|`.
abbrev pub access_read : ℕ
access_read = 1

abbrev pub access_write : ℕ
access_write = 2

-- `ud_t`; `operand` are the four operands.
pub record Ud : Type 0 where
  pub mnemonic : Mnemonic
  pub pfx_seg : Reg
  pub operand0 : UdOperand
  pub operand1 : UdOperand
  pub operand2 : UdOperand
  pub operand3 : UdOperand

abbrev pub operands : Ud → List UdOperand
operands ud = ud.operand0 ∷ ud.operand1 ∷ ud.operand2 ∷ ud.operand3 ∷ []

-- `reads` and `writes` up to their counts, `prefetch_op`, `s_ThreadState.m_StackIndex` and `do_ms_step`;
-- and whether a `DebugBreak` was reached.
pub record Accesses : Type 0 where
  pub reads : List MemOp
  pub writes : List MemOp
  pub prefetch_op : MemOp
  pub stack_index : ℕ
  pub do_ms_step : ℕ
  pub stopped : Bool

-- `~0u`
abbrev pub no_stack_index : ℕ
no_stack_index = 2 ^ 32 - 1

-- `if (sz == 0) DebugBreak(); if (intptr_t(addr) < 0) DebugBreak();`
unfoldable pub breaks : ℕ → ℕ → Bool
breaks addr sz = sz == 0 || not (ltb addr (2 ^ 63))

unfoldable pub data_r : ℕ → ℕ → Accesses → Accesses
data_r addr sz a =
    if not (addr == 0)
    then record a {
      reads = a.reads ++ (record { ea = addr; sz = sz } ∷ []);
      stopped = a.stopped || breaks addr sz;
    }
    else record a { stopped = a.stopped || breaks addr sz }

unfoldable pub data_w : ℕ → ℕ → Accesses → Accesses
data_w addr sz a =
    if not (addr == 0)
    then record a {
      writes = a.writes ++ (record { ea = addr; sz = sz } ∷ []);
      stopped = a.stopped || breaks addr sz;
    }
    else record a { stopped = a.stopped || breaks addr sz }

-- The address of an operand is computed.
unfoldable pub at_ea : UdOperand → Accesses → Accesses
at_ea op a = record a { stopped = a.stopped || ea_breaks op.parts }

unfoldable pub invalidate_stack : Accesses → Accesses
invalidate_stack a = record a { stack_index = no_stack_index }

-- The first `switch`: implicit memory operands.
unfoldable pub implicit_accesses : Mnemonic → Ud → Context → Accesses → Accesses
implicit_accesses lodsb ud ctx a = data_r ctx.rsi 1 a
implicit_accesses scasb ud ctx a = data_r ctx.rsi 1 a
implicit_accesses lodsw ud ctx a = data_r ctx.rsi 2 a
implicit_accesses scasw ud ctx a = data_r ctx.rsi 2 a
implicit_accesses lodsd ud ctx a = data_r ctx.rsi 4 a
implicit_accesses scasd ud ctx a = data_r ctx.rsi 4 a
implicit_accesses lodsq ud ctx a = data_r ctx.rsi 8 a
implicit_accesses scasq ud ctx a = data_r ctx.rsi 8 a
implicit_accesses stosb ud ctx a = data_w ctx.rdi 1 a
implicit_accesses stosw ud ctx a = data_w ctx.rdi 2 a
implicit_accesses stosd ud ctx a = data_w ctx.rdi 4 a
implicit_accesses stosq ud ctx a = data_w ctx.rdi 8 a
implicit_accesses movsb ud ctx a = data_w ctx.rdi 1 (data_r ctx.rsi 1 a)
implicit_accesses movsw ud ctx a = data_w ctx.rdi 2 (data_r ctx.rsi 2 a)
implicit_accesses movsd ud ctx a = data_w ctx.rdi 4 (data_r ctx.rsi 4 a)
implicit_accesses movsq ud ctx a = data_w ctx.rdi 8 (data_r ctx.rsi 8 a)
implicit_accesses push ud ctx a = data_w ctx.rsp (ud.operand0.size / 8) a
implicit_accesses pop ud ctx a = data_w ctx.rsp (ud.operand0.size / 8) a
implicit_accesses call ud ctx a = invalidate_stack (data_w ctx.rsp 8 a)
implicit_accesses ret ud ctx a = invalidate_stack (data_r ctx.rsp 8 a)
implicit_accesses _ ud ctx a = a

-- The `switch` on the access of one memory operand.
unfoldable pub operand_access : Segments → Reg → Context → UdOperand → Accesses → Accesses
operand_access s pfx_seg ctx op a =
    if op.access == access_read
    then data_r (compute_ea s pfx_seg op.parts ctx) (op.size / 8) (at_ea op a)
    else if op.access == access_write
    then data_w (compute_ea s pfx_seg op.parts ctx) (op.size / 8) (at_ea op a)
    else a

-- The loop over the operands, which stops at the first `UD_NONE`.
unfoldable pub operand_accesses : Segments → Reg → Context → List UdOperand → Accesses → Accesses
operand_accesses s pfx_seg ctx [] a = a
operand_accesses s pfx_seg ctx (op ∷ ops) a = elim op.type [
  | no_operand ↦ a
  | mem ↦ operand_accesses s pfx_seg ctx ops (operand_access s pfx_seg ctx op a)
  | other_operand ↦ operand_accesses s pfx_seg ctx ops a
]

unfoldable pub prefetch_access : Segments → Ud → Context → Accesses → Accesses
prefetch_access s ud ctx a = record (at_ea ud.operand0 a) {
  prefetch_op = record { ea = compute_ea s ud.pfx_seg ud.operand0.parts ctx; sz = 64 };
}

-- The second `switch`: special memory operands, and all others.
unfoldable pub explicit_accesses : Mnemonic → Segments → Ud → Context → Accesses → Accesses
explicit_accesses pause s ud ctx a = record a { do_ms_step = (a.do_ms_step + 1) % 2 ^ 32 }
explicit_accesses lea s ud ctx a = a
explicit_accesses nop s ud ctx a = a
explicit_accesses prefetch s ud ctx a = prefetch_access s ud ctx a
explicit_accesses prefetchnta s ud ctx a = prefetch_access s ud ctx a
explicit_accesses prefetcht0 s ud ctx a = prefetch_access s ud ctx a
explicit_accesses prefetcht1 s ud ctx a = prefetch_access s ud ctx a
explicit_accesses prefetcht2 s ud ctx a = prefetch_access s ud ctx a
explicit_accesses movntq s ud ctx a =
    data_w (compute_ea s ud.pfx_seg ud.operand0.parts ctx) 8 (at_ea ud.operand0 a)
explicit_accesses movntdq s ud ctx a =
    data_w (compute_ea s ud.pfx_seg ud.operand0.parts ctx) 16 (at_ea ud.operand0 a)
explicit_accesses movntdqa s ud ctx a =
    data_w (compute_ea s ud.pfx_seg ud.operand0.parts ctx) 16 (at_ea ud.operand0 a)
explicit_accesses fxsave s ud ctx a =
    data_w (compute_ea s ud.pfx_seg ud.operand0.parts ctx) 512 (at_ea ud.operand0 a)
explicit_accesses fxrstor s ud ctx a =
    data_r (compute_ea s ud.pfx_seg ud.operand0.parts ctx) 512 (at_ea ud.operand0 a)
explicit_accesses _ s ud ctx a = operand_accesses s ud.pfx_seg ctx (operands ud) a

abbrev pub no_accesses : ℕ → ℕ → Accesses
no_accesses stack_index do_ms_step = record {
  reads = [];
  writes = [];
  prefetch_op = record { ea = 0; sz = 0 };
  stack_index = stack_index;
  do_ms_step = do_ms_step;
  stopped = false;
}

-- Both switches.
unfoldable pub memory_accesses : Segments → Ud → Context → ℕ → ℕ → Accesses
memory_accesses s ud ctx stack_index do_ms_step =
    explicit_accesses ud.mnemonic s ud ctx
      (implicit_accesses ud.mnemonic ud ctx (no_accesses stack_index do_ms_step))
