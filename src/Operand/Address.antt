-- ===== src/Operand/Address.antt =====
-- The effective address as one sum.
use ig_cachesim.Common.{
  ℕ, ◌+◌, ◌*◌, ◌%◌, ◌^◌, ◌<◌, ◌≡◌, refl, ◌∙◌, ap, Bool, true, false, not, ◌||◌, arith, ◌==◌,
  if◌then◌else◌,
}
use ig_cachesim.Operand.{
  Reg, r_fs, r_gs, Context, sign_extend, read_reg, Operand, Segments, adjust_fs_segment,
  adjust_gs_segment, is_none, add_displacement, add_base, add_index, adjust_segment, compute_ea,
}

-- The parts of an address: where the segment starts, the displacement, the base and the scaled index.
unfoldable pub segment_base : Segments → Reg → ℕ
segment_base s r_fs = s.fs_base
segment_base s r_gs = s.gs_base
segment_base s _ = 0

unfoldable pub displacement : Operand → ℕ
displacement op =
    if op.offset == 64
    then op.lval
    else if op.offset == 8 || op.offset == 16 || op.offset == 32
    then sign_extend op.offset op.lval
    else 0

unfoldable pub base_value : Operand → Context → ℕ
base_value op ctx = if is_none op.base then 0 else read_reg op.base ctx

unfoldable pub index_value : Operand → Context → ℕ
index_value op ctx =
    if is_none op.index then 0 else read_reg op.index ctx * (if op.scale == 0 then 1 else op.scale)

add_displacement_lem :
    (op : Operand) (a : ℕ) → add_displacement op a % 2 ^ 64 ≡ (a + displacement op) % 2 ^ 64
unfolding add_displacement displacement
add_displacement_lem op a = ground (arith, ap (λ b. sign_extend b op.lval))

add_base_lem :
    (op : Operand) (ctx : Context) (a : ℕ)
    → add_base op ctx a % 2 ^ 64 ≡ (a + base_value op ctx) % 2 ^ 64
unfolding add_base base_value
add_base_lem op ctx a = ground arith

add_index_lem :
    (op : Operand) (ctx : Context) (a : ℕ)
    → add_index op ctx a % 2 ^ 64 ≡ (a + index_value op ctx) % 2 ^ 64
unfolding add_index index_value
add_index_lem op ctx a = ground arith

-- The two registers of segments.
unfoldable pub is_segment : Reg → Bool
is_segment r_fs = true
is_segment r_gs = true
is_segment _ = false

adjust_segment_lem :
    (s : Segments) (r : Reg) (a : ℕ)
    → a < 2 ^ 64
    → adjust_segment s r a
      ≡ (if not (is_segment r) || s.have_fs_gs_base then (segment_base s r + a) % 2 ^ 64 else 0)
unfolding adjust_segment segment_base adjust_fs_segment adjust_gs_segment is_segment
adjust_segment_lem s r_fs a h = refl
adjust_segment_lem s r_gs a h = refl
adjust_segment_lem s _ a h = omega arith

add_displacement-lt : (op : Operand) (a : ℕ) → a < 2 ^ 64 → add_displacement op a < 2 ^ 64
unfolding add_displacement
add_displacement-lt op a h = ground arith

add_base-lt : (op : Operand) (ctx : Context) (a : ℕ) → a < 2 ^ 64 → add_base op ctx a < 2 ^ 64
unfolding add_base
add_base-lt op ctx a h = ground arith

add_index-lt : (op : Operand) (ctx : Context) (a : ℕ) → a < 2 ^ 64 → add_index op ctx a < 2 ^ 64
unfolding add_index
add_index-lt op ctx a h = ground arith

-- `ComputeEa` gives the sum, modulo 2^64, of the start of the segment, the displacement widened
-- from its width, the base register and the index register times its scale, where a register or a
-- displacement that is not there counts as 0 and a scale that is not there as 1. It gives 0 for the
-- two segment prefixes where their bases cannot be read.
pub compute_ea_lem :
    (s : Segments) (r : Reg) (op : Operand) (ctx : Context)
    → compute_ea s r op ctx ≡ (
        if not (is_segment r) || s.have_fs_gs_base
        then (segment_base s r + displacement op + base_value op ctx + index_value op ctx) % 2 ^ 64
        else 0)
unfolding compute_ea
compute_ea_lem s r op ctx =
    let a1 = add_displacement op 0 in
    let a2 = add_base op ctx a1 in
    let a3 = add_index op ctx a2 in
    let small : a3 < 2 ^ 64 =
      add_index-lt op ctx a2 (add_base-lt op ctx a1 (add_displacement-lt op 0 (omega arith))) in
    let sum : (segment_base s r + a3) % 2 ^ 64
        ≡ (segment_base s r + displacement op + base_value op ctx + index_value op ctx) % 2 ^ 64 =
      omega (arith, add_index_lem op ctx a2, add_base_lem op ctx a1, add_displacement_lem op 0) in
    adjust_segment_lem s r a3 small ∙ rw sum
