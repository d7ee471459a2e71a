-- ===== src/Tests/Operands.antt =====
-- The theorem about effective addresses, at a concrete operand.
use ig_cachesim.Common.{true, ◌+◌, ◌%◌, ◌^◌, ◌≡◌, refl}
use ig_cachesim.Operand.{
  r_rbx, r_ecx, r_fs, Context, Operand, Segments, sign_extend, read_reg, add_displacement, add_base,
  add_index, adjust_fs_segment, adjust_segment, compute_ea,
}
use ig_cachesim.Operand.Address.{
  segment_base, displacement, base_value, index_value, compute_ea_lem,
}

abbrev pub registers : Context
registers = record {
  rax = 0;
  rbx = 0x10000;
  rcx = 3;
  rdx = 0;
  rsi = 0;
  rdi = 0;
  rbp = 0;
  rsp = 0x7000;
  r8 = 0;
  r9 = 0;
  r10 = 0;
  r11 = 0;
  r12 = 0;
  r13 = 0;
  r14 = 0;
  r15 = 0;
  rip = 0x401000;
}

abbrev pub segments : Segments
segments = record { fs_base = 0x500000; gs_base = 0; have_fs_gs_base = true }

-- `fs:[rbx + ecx*8 - 8]`
abbrev operand : Operand
operand = record { offset = 8; lval = 0xf8; base = r_rbx; index = r_ecx; scale = 8 }

address : compute_ea segments r_fs operand registers ≡ 0x510010
unfolding compute_ea adjust_segment adjust_fs_segment add_index add_base add_displacement
    sign_extend read_reg
address = refl

compute_ea_lem_example :
    compute_ea segments r_fs operand registers
    ≡ (segment_base segments r_fs
        + displacement operand
        + base_value operand registers
        + index_value operand registers)
      % 2 ^ 64
unfolding segment_base ig_cachesim.Operand.Address.is_segment
compute_ea_lem_example = compute_ea_lem segments r_fs operand registers

-- A 32-bit register with its top bit set, as an index.
negative_index : read_reg r_ecx (record registers { rcx = 0x80000000 }) ≡ 0xffffffff80000000
unfolding read_reg sign_extend
negative_index = refl
