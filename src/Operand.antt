-- ===== src/Operand.antt =====
-- The effective address of a memory operand of CacheSim/CacheSimCommon.inl (`ReadReg`, `ComputeEa`), with
-- the segments of CacheSim/CacheSimLinux.cpp and CacheSim/CacheSimWindows.cpp. The registers and the operand are those of the
-- disassembler, as far as the code names them; a signed result is its two's complement in 64 bits.
pub mod Address
use ig_cachesim.Common.{
  ℕ, ◌+◌, ◌-◌, ◌*◌, ◌/◌, ◌%◌, ◌^◌, Bool, true, false, not, ◌||◌, ◌==◌, ltb, if◌then◌else◌,
}

-- The values of `ud_type_t` that `ReadReg` and `ComputeEa` name, and one for all others.
pub data Reg : Type 0 where
  no_reg : Reg
  r_al r_ah r_ax r_eax r_rax r_bl r_bh r_bx r_ebx r_rbx r_cl r_ch : Reg
  r_cx r_ecx r_rcx r_dl r_dh r_dx r_edx r_rdx r_sil r_si r_esi r_rsi : Reg
  r_dil r_di r_edi r_rdi r_bpl r_bp r_ebp r_rbp r_spl r_sp r_esp r_rsp : Reg
  r_r8b r_r8w r_r8d r_r8 r_r9b r_r9w r_r9d r_r9 r_r10b r_r10w r_r10d r_r10 : Reg
  r_r11b r_r11w r_r11d r_r11 r_r12b r_r12w r_r12d r_r12 r_r13b r_r13w r_r13d r_r13 : Reg
  r_r14b r_r14w r_r14d r_r14 r_r15b r_r15w r_r15d r_r15 r_rip : Reg
  r_fs r_gs other_reg : Reg

-- The registers of `CONTEXT` that are read.
pub record Context : Type 0 where
  pub rax : ℕ
  pub rbx : ℕ
  pub rcx : ℕ
  pub rdx : ℕ
  pub rsi : ℕ
  pub rdi : ℕ
  pub rbp : ℕ
  pub rsp : ℕ
  pub r8 : ℕ
  pub r9 : ℕ
  pub r10 : ℕ
  pub r11 : ℕ
  pub r12 : ℕ
  pub r13 : ℕ
  pub r14 : ℕ
  pub r15 : ℕ
  pub rip : ℕ

-- `(int8_t)`, `(int16_t)` and `(int32_t)`, widened to `intptr_t`.
unfoldable pub sign_extend : ℕ → ℕ → ℕ
sign_extend bits x =
    let low = x % 2 ^ bits in if ltb low (2 ^ (bits - 1)) then low else low + 2 ^ 64 - 2 ^ bits

-- `ReadReg`. It stops at a `DebugBreak` for any other register, see `ea_breaks`; the 0 stands for that.
unfoldable pub read_reg : Reg → Context → ℕ
read_reg r_al ctx = sign_extend 8 ctx.rax
read_reg r_ah ctx = sign_extend 8 (ctx.rax / 2 ^ 8)
read_reg r_ax ctx = sign_extend 16 ctx.rax
read_reg r_eax ctx = sign_extend 32 ctx.rax
read_reg r_rax ctx = ctx.rax
read_reg r_bl ctx = sign_extend 8 ctx.rbx
read_reg r_bh ctx = sign_extend 8 (ctx.rbx / 2 ^ 8)
read_reg r_bx ctx = sign_extend 16 ctx.rbx
read_reg r_ebx ctx = sign_extend 32 ctx.rbx
read_reg r_rbx ctx = ctx.rbx
read_reg r_cl ctx = sign_extend 8 ctx.rcx
read_reg r_ch ctx = sign_extend 8 (ctx.rcx / 2 ^ 8)
read_reg r_cx ctx = sign_extend 16 ctx.rcx
read_reg r_ecx ctx = sign_extend 32 ctx.rcx
read_reg r_rcx ctx = ctx.rcx
read_reg r_dl ctx = sign_extend 8 ctx.rdx
read_reg r_dh ctx = sign_extend 8 (ctx.rdx / 2 ^ 8)
read_reg r_dx ctx = sign_extend 16 ctx.rdx
read_reg r_edx ctx = sign_extend 32 ctx.rdx
read_reg r_rdx ctx = ctx.rdx
read_reg r_sil ctx = sign_extend 8 ctx.rsi
read_reg r_si ctx = sign_extend 16 ctx.rsi
read_reg r_esi ctx = sign_extend 32 ctx.rsi
read_reg r_rsi ctx = ctx.rsi
read_reg r_dil ctx = sign_extend 8 ctx.rdi
read_reg r_di ctx = sign_extend 16 ctx.rdi
read_reg r_edi ctx = sign_extend 32 ctx.rdi
read_reg r_rdi ctx = ctx.rdi
read_reg r_bpl ctx = sign_extend 8 ctx.rbp
read_reg r_bp ctx = sign_extend 16 ctx.rbp
read_reg r_ebp ctx = sign_extend 32 ctx.rbp
read_reg r_rbp ctx = ctx.rbp
read_reg r_spl ctx = sign_extend 8 ctx.rsp
read_reg r_sp ctx = sign_extend 16 ctx.rsp
read_reg r_esp ctx = sign_extend 32 ctx.rsp
read_reg r_rsp ctx = ctx.rsp
read_reg r_r8b ctx = sign_extend 8 ctx.r8
read_reg r_r8w ctx = sign_extend 16 ctx.r8
read_reg r_r8d ctx = sign_extend 32 ctx.r8
read_reg r_r8 ctx = ctx.r8
read_reg r_r9b ctx = sign_extend 8 ctx.r9
read_reg r_r9w ctx = sign_extend 16 ctx.r9
read_reg r_r9d ctx = sign_extend 32 ctx.r9
read_reg r_r9 ctx = ctx.r9
read_reg r_r10b ctx = sign_extend 8 ctx.r10
read_reg r_r10w ctx = sign_extend 16 ctx.r10
read_reg r_r10d ctx = sign_extend 32 ctx.r10
read_reg r_r10 ctx = ctx.r10
read_reg r_r11b ctx = sign_extend 8 ctx.r11
read_reg r_r11w ctx = sign_extend 16 ctx.r11
read_reg r_r11d ctx = sign_extend 32 ctx.r11
read_reg r_r11 ctx = ctx.r11
read_reg r_r12b ctx = sign_extend 8 ctx.r12
read_reg r_r12w ctx = sign_extend 16 ctx.r12
read_reg r_r12d ctx = sign_extend 32 ctx.r12
read_reg r_r12 ctx = ctx.r12
read_reg r_r13b ctx = sign_extend 8 ctx.r13
read_reg r_r13w ctx = sign_extend 16 ctx.r13
read_reg r_r13d ctx = sign_extend 32 ctx.r13
read_reg r_r13 ctx = ctx.r13
read_reg r_r14b ctx = sign_extend 8 ctx.r14
read_reg r_r14w ctx = sign_extend 16 ctx.r14
read_reg r_r14d ctx = sign_extend 32 ctx.r14
read_reg r_r14 ctx = ctx.r14
read_reg r_r15b ctx = sign_extend 8 ctx.r15
read_reg r_r15w ctx = sign_extend 16 ctx.r15
read_reg r_r15d ctx = sign_extend 32 ctx.r15
read_reg r_r15 ctx = ctx.r15
read_reg r_rip ctx = ctx.rip
read_reg _ ctx = 0

-- `ud_operand_t`; `lval` is the 64 bits of its union.
pub record Operand : Type 0 where
  pub offset : ℕ
  pub lval : ℕ
  pub base : Reg
  pub index : Reg
  pub scale : ℕ

-- The two segments, and whether their bases can be read: on Linux `arch_prctl` always gives them; on Windows it is
-- `s_HaveFsGsBase`, without which the address is 0.
pub record Segments : Type 0 where
  pub fs_base : ℕ
  pub gs_base : ℕ
  pub have_fs_gs_base : Bool

unfoldable pub adjust_fs_segment : Segments → ℕ → ℕ
adjust_fs_segment s address = if s.have_fs_gs_base then (s.fs_base + address) % 2 ^ 64 else 0

unfoldable pub adjust_gs_segment : Segments → ℕ → ℕ
adjust_gs_segment s address = if s.have_fs_gs_base then (s.gs_base + address) % 2 ^ 64 else 0

abbrev pub is_none : Reg → Bool
is_none no_reg = true
is_none _ = false

-- The `switch` on the width of the displacement.
unfoldable pub add_displacement : Operand → ℕ → ℕ
add_displacement op addr =
    if op.offset == 8
    then (addr + sign_extend 8 op.lval) % 2 ^ 64
    else if op.offset == 16
    then (addr + sign_extend 16 op.lval) % 2 ^ 64
    else if op.offset == 32
    then (addr + sign_extend 32 op.lval) % 2 ^ 64
    else if op.offset == 64
    then (addr + op.lval) % 2 ^ 64
    else addr

unfoldable pub add_base : Operand → Context → ℕ → ℕ
add_base op ctx addr =
    if not (is_none op.base) then (addr + read_reg op.base ctx) % 2 ^ 64 else addr

unfoldable pub add_index : Operand → Context → ℕ → ℕ
add_index op ctx addr =
    let regval = read_reg op.index ctx in
    if not (is_none op.index)
    then (if not (op.scale == 0)
        then (addr + regval * op.scale % 2 ^ 64) % 2 ^ 64
        else (addr + regval) % 2 ^ 64)
    else addr

-- The `switch` on the prefix.
unfoldable pub adjust_segment : Segments → Reg → ℕ → ℕ
adjust_segment s r_fs addr = adjust_fs_segment s addr
adjust_segment s r_gs addr = adjust_gs_segment s addr
adjust_segment s _ addr = addr

-- The registers that `ReadReg` does not know; no register is one.
abbrev pub is_unknown : Reg → Bool
is_unknown r_fs = true
is_unknown r_gs = true
is_unknown other_reg = true
is_unknown _ = false

-- Whether the two calls of `ReadReg` reach its `DebugBreak`.
unfoldable pub ea_breaks : Operand → Bool
ea_breaks op = is_unknown op.base || is_unknown op.index

-- `ComputeEa`
unfoldable pub compute_ea : Segments → Reg → Operand → Context → ℕ
compute_ea s pfx_seg op ctx =
    adjust_segment s pfx_seg (add_index op ctx (add_base op ctx (add_displacement op 0)))
