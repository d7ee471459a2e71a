-- ===== src/Accesses/Bounds.antt =====
-- The arrays `reads[4]` and `writes[4]` of `GenerateMemoryAccesses`.
use ig_cachesim.Common.{
  ℕ, suc, ◌+◌, ◌/◌, ◌≤◌, ◌≢◌, All, List, [], ◌∷◌, ◌++◌, length, length-append, arith, ◌==◌,
  Bool-cases, inl, inr,
}
use ig_cachesim.Operand.{Reg, Context, Segments, compute_ea}
use ig_cachesim.Trace.{MemOp}
use ig_cachesim.Accesses.{
  Mnemonic, lodsb, lodsw, lodsd, lodsq, scasb, scasw, scasd, scasq, stosb, stosw, stosd, stosq,
  movsb, movsw, movsd, movsq, push, pop, call, ret, no_operand, mem, other_operand, access_read,
  access_write, UdOperand, Ud, Accesses, data_r, data_w, at_ea, invalidate_stack, operand_access,
  operand_accesses, implicit_accesses,
}
use ig_cachesim.Accesses.Operands.{mem_operands}

-- At most `r` reads and `w` writes, all at addresses that are not zero.
pub record AreAtMost (r w : ℕ) (a : Accesses) : Type 0 where
  pub reads : length a.reads ≤ r
  pub writes : length a.writes ≤ w
  pub real_reads : All (λ op. op.ea ≢ 0) a.reads
  pub real_writes : All (λ op. op.ea ≢ 0) a.writes

All-append_one :
    (ops : List MemOp) (op : MemOp)
    → All (λ o. o.ea ≢ 0) ops
    → op.ea ≢ 0
    → All (λ o. o.ea ≢ 0) (ops ++ (op ∷ []))
All-append_one [] op h e = (e, tt)
All-append_one (o ∷ ops) op h e = (h.0, All-append_one ops op h.1 e)

pub data_r-AreAtMost :
    (addr sz r w : ℕ) (a : Accesses) → AreAtMost r w a → AreAtMost (suc r) w (data_r addr sz a)
unfolding data_r
data_r-AreAtMost addr sz r w a h = elim (Bool-cases (addr == 0)) [
  | inl z ↦ rw z (record {
    reads = omega (arith, h.reads);
    writes = omega (arith, h.writes);
    real_reads = h.real_reads;
    real_writes = h.real_writes;
  })
  | inr z ↦ rw z (record {
    reads = omega (arith, h.reads, length-append a.reads (record { ea = addr; sz = sz } ∷ []));
    writes = omega (arith, h.writes);
    real_reads =
        All-append_one a.reads (record { ea = addr; sz = sz }) h.real_reads (ground (arith, z));
    real_writes = h.real_writes;
  })
]

pub data_w-AreAtMost :
    (addr sz r w : ℕ) (a : Accesses) → AreAtMost r w a → AreAtMost r (suc w) (data_w addr sz a)
unfolding data_w
data_w-AreAtMost addr sz r w a h = elim (Bool-cases (addr == 0)) [
  | inl z ↦ rw z (record {
    reads = omega (arith, h.reads);
    writes = omega (arith, h.writes);
    real_reads = h.real_reads;
    real_writes = h.real_writes;
  })
  | inr z ↦ rw z (record {
    reads = omega (arith, h.reads);
    writes = omega (arith, h.writes, length-append a.writes (record { ea = addr; sz = sz } ∷ []));
    real_reads = h.real_reads;
    real_writes =
        All-append_one a.writes (record { ea = addr; sz = sz }) h.real_writes (ground (arith, z));
  })
]

pub weaken : {r w r' w' : ℕ} {a : Accesses} → AreAtMost r w a → r ≤ r' → w ≤ w' → AreAtMost r' w' a
weaken h le le' = record {
  reads = omega (arith, h.reads);
  writes = omega (arith, h.writes);
  real_reads = h.real_reads;
  real_writes = h.real_writes;
}

pub at_ea-AreAtMost :
    (op : UdOperand) {r w : ℕ} (a : Accesses) → AreAtMost r w a → AreAtMost r w (at_ea op a)
unfolding at_ea
at_ea-AreAtMost op a h = record {
  reads = h.reads;
  writes = h.writes;
  real_reads = h.real_reads;
  real_writes = h.real_writes;
}

pub implicit_accesses-AreAtMost :
    (m : Mnemonic) (ud : Ud) (ctx : Context) (a : Accesses)
    → AreAtMost 0 0 a
    → AreAtMost 1 1 (implicit_accesses m ud ctx a)
unfolding implicit_accesses invalidate_stack
implicit_accesses-AreAtMost lodsb ud ctx a h =
    weaken (data_r-AreAtMost ctx.rsi 1 0 0 a h) (omega arith) (omega arith)
implicit_accesses-AreAtMost scasb ud ctx a h =
    weaken (data_r-AreAtMost ctx.rsi 1 0 0 a h) (omega arith) (omega arith)
implicit_accesses-AreAtMost lodsw ud ctx a h =
    weaken (data_r-AreAtMost ctx.rsi 2 0 0 a h) (omega arith) (omega arith)
implicit_accesses-AreAtMost scasw ud ctx a h =
    weaken (data_r-AreAtMost ctx.rsi 2 0 0 a h) (omega arith) (omega arith)
implicit_accesses-AreAtMost lodsd ud ctx a h =
    weaken (data_r-AreAtMost ctx.rsi 4 0 0 a h) (omega arith) (omega arith)
implicit_accesses-AreAtMost scasd ud ctx a h =
    weaken (data_r-AreAtMost ctx.rsi 4 0 0 a h) (omega arith) (omega arith)
implicit_accesses-AreAtMost lodsq ud ctx a h =
    weaken (data_r-AreAtMost ctx.rsi 8 0 0 a h) (omega arith) (omega arith)
implicit_accesses-AreAtMost scasq ud ctx a h =
    weaken (data_r-AreAtMost ctx.rsi 8 0 0 a h) (omega arith) (omega arith)
implicit_accesses-AreAtMost stosb ud ctx a h =
    weaken (data_w-AreAtMost ctx.rdi 1 0 0 a h) (omega arith) (omega arith)
implicit_accesses-AreAtMost stosw ud ctx a h =
    weaken (data_w-AreAtMost ctx.rdi 2 0 0 a h) (omega arith) (omega arith)
implicit_accesses-AreAtMost stosd ud ctx a h =
    weaken (data_w-AreAtMost ctx.rdi 4 0 0 a h) (omega arith) (omega arith)
implicit_accesses-AreAtMost stosq ud ctx a h =
    weaken (data_w-AreAtMost ctx.rdi 8 0 0 a h) (omega arith) (omega arith)
implicit_accesses-AreAtMost movsb ud ctx a h =
    data_w-AreAtMost ctx.rdi 1 1 0 (data_r ctx.rsi 1 a) (data_r-AreAtMost ctx.rsi 1 0 0 a h)
implicit_accesses-AreAtMost movsw ud ctx a h =
    data_w-AreAtMost ctx.rdi 2 1 0 (data_r ctx.rsi 2 a) (data_r-AreAtMost ctx.rsi 2 0 0 a h)
implicit_accesses-AreAtMost movsd ud ctx a h =
    data_w-AreAtMost ctx.rdi 4 1 0 (data_r ctx.rsi 4 a) (data_r-AreAtMost ctx.rsi 4 0 0 a h)
implicit_accesses-AreAtMost movsq ud ctx a h =
    data_w-AreAtMost ctx.rdi 8 1 0 (data_r ctx.rsi 8 a) (data_r-AreAtMost ctx.rsi 8 0 0 a h)
implicit_accesses-AreAtMost push ud ctx a h =
    weaken (data_w-AreAtMost ctx.rsp (ud.operand0.size / 8) 0 0 a h) (omega arith) (omega arith)
implicit_accesses-AreAtMost pop ud ctx a h =
    weaken (data_w-AreAtMost ctx.rsp (ud.operand0.size / 8) 0 0 a h) (omega arith) (omega arith)
implicit_accesses-AreAtMost call ud ctx a h =
    let v = weaken (data_w-AreAtMost ctx.rsp 8 0 0 a h) (omega arith) (omega arith) in
    record {
      reads = v.reads;
      writes = v.writes;
      real_reads = v.real_reads;
      real_writes = v.real_writes;
    }
implicit_accesses-AreAtMost ret ud ctx a h =
    let v = weaken (data_r-AreAtMost ctx.rsp 8 0 0 a h) (omega arith) (omega arith) in
    record {
      reads = v.reads;
      writes = v.writes;
      real_reads = v.real_reads;
      real_writes = v.real_writes;
    }
implicit_accesses-AreAtMost _ ud ctx a h = weaken h (omega arith) (omega arith)

operand_access-AreAtMost :
    (s : Segments) (pfx_seg : Reg) (ctx : Context) (op : UdOperand) (r w : ℕ) (a : Accesses)
    → AreAtMost r w a
    → AreAtMost (suc r) (suc w) (operand_access s pfx_seg ctx op a)
unfolding operand_access
operand_access-AreAtMost s pfx_seg ctx op r w a h = elim (Bool-cases (op.access == access_read)) [
  | inl e ↦ rw e (
      weaken
        (data_r-AreAtMost (compute_ea s pfx_seg op.parts ctx) (op.size / 8) r w (at_ea op a)
          (at_ea-AreAtMost op a h))
        (omega arith) (omega arith))
  | inr e ↦ elim (Bool-cases (op.access == access_write)) [
    | inl e' ↦
        rw (e, e')
          (weaken
            (data_w-AreAtMost (compute_ea s pfx_seg op.parts ctx) (op.size / 8) r w (at_ea op a)
              (at_ea-AreAtMost op a h))
            (omega arith) (omega arith))
    | inr e' ↦ rw (e, e') (weaken h (omega arith) (omega arith))
  ]
]

pub operand_accesses-AreAtMost :
    (s : Segments) (pfx_seg : Reg) (ctx : Context) (ops : List UdOperand) (r w : ℕ) (a : Accesses)
    → AreAtMost r w a
    → AreAtMost
        (length (mem_operands ops) + r)
        (length (mem_operands ops) + w)
        (operand_accesses s pfx_seg ctx ops a)
unfolding operand_accesses mem_operands
operand_accesses-AreAtMost s pfx_seg ctx [] r w a h = weaken h (omega arith) (omega arith)
operand_accesses-AreAtMost s pfx_seg ctx (op ∷ ops) r w a h =
    elim op.type
      as (λ ty.
        AreAtMost
          (length (elim ty as (λ t. List UdOperand) [
            | no_operand ↦ []
            | mem ↦ op ∷ mem_operands ops
            | other_operand ↦ mem_operands ops
          ])
            + r)
          (length (elim ty as (λ t. List UdOperand) [
            | no_operand ↦ []
            | mem ↦ op ∷ mem_operands ops
            | other_operand ↦ mem_operands ops
          ])
            + w)
          (elim ty as (λ t. Accesses) [
            | no_operand ↦ a
            | mem ↦ operand_accesses s pfx_seg ctx ops (operand_access s pfx_seg ctx op a)
            | other_operand ↦ operand_accesses s pfx_seg ctx ops a
          ])) [
            | no_operand ↦ weaken h (omega arith) (omega arith)
            | mem ↦
                weaken
                  (operand_accesses-AreAtMost s pfx_seg ctx ops (suc r) (suc w)
                    (operand_access s pfx_seg ctx op a)
                    (operand_access-AreAtMost s pfx_seg ctx op r w a h))
                  (omega arith) (omega arith)
            | other_operand ↦ operand_accesses-AreAtMost s pfx_seg ctx ops r w a h
          ]
