-- ===== src/Tests/Instructions.antt =====
-- The theorems about the accesses of an instruction, at concrete instructions.
use ig_cachesim.Common.{ℕ, ◌≡◌, refl, false, All, [], arith}
use ig_cachesim.Operand.{
  no_reg, r_rbx, Operand, compute_ea, adjust_segment, add_index, add_base, add_displacement,
  read_reg, ea_breaks,
}
use ig_cachesim.Accesses.{
  other_mnemonic, no_operand, mem, other_operand, UdOperand, access_read, access_write, Ud,
  operands, memory_accesses,
}
use ig_cachesim.Accesses.Operands.{
  mem_operands, IsSound, selected, memory_accesses-selected, memory_accesses-both,
}
use ig_cachesim.Accesses.Bounds.{AreAtMost}
use ig_cachesim.Accesses.Room.{memory_accesses-AreAtMost}
use ig_cachesim.Tests.Operands.{registers, segments}

abbrev at_rbx : Operand
at_rbx = record { offset = 0; lval = 0; base = r_rbx; index = no_reg; scale = 0 }

abbrev nothing : UdOperand
nothing = record { type = no_operand; size = 0; access = 0; parts = at_rbx }

abbrev register : UdOperand
register = record { type = other_operand; size = 64; access = access_write; parts = at_rbx }

abbrev memory : ℕ → UdOperand
memory access = record { type = mem; size = 64; access = access; parts = at_rbx }

-- `mov rax, [rbx]`
abbrev pub load : Ud
load = record {
  mnemonic = other_mnemonic;
  pfx_seg = no_reg;
  operand0 = register;
  operand1 = memory access_read;
  operand2 = nothing;
  operand3 = nothing;
}

-- `add [rbx], rax`
abbrev add_to : Ud
add_to = record load { operand0 = memory 3; operand1 = register }

load-IsSound : All (IsSound segments no_reg registers) (mem_operands (operands load))
unfolding mem_operands compute_ea adjust_segment add_index add_base add_displacement read_reg
    ea_breaks
load-IsSound = (record { sized = omega arith; low = omega arith; known = refl }, tt)

memory_accesses-selected_example :
    ((memory_accesses segments load registers 7 0).stopped ≡ false)
    × ((memory_accesses segments load registers 7 0).reads
        ≡ selected segments no_reg registers access_read (mem_operands (operands load)))
    × ((memory_accesses segments load registers 7 0).writes
        ≡ selected segments no_reg registers access_write (mem_operands (operands load)))
memory_accesses-selected_example =
    memory_accesses-selected segments load registers 7 0 refl load-IsSound

memory_accesses-both_example :
    ((memory_accesses segments add_to registers 7 0).reads ≡ [])
    × ((memory_accesses segments add_to registers 7 0).writes ≡ [])
memory_accesses-both_example =
    memory_accesses-both segments add_to registers 7 0 refl (unfold mem_operands in (refl, tt))

memory_accesses-AreAtMost_example : AreAtMost 4 4 (memory_accesses segments load registers 7 0)
memory_accesses-AreAtMost_example =
    memory_accesses-AreAtMost segments load registers 7 0 (unfold mem_operands in omega arith)
