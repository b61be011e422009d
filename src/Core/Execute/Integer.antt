-- ===== src/Core/Execute/Integer.antt =====
-- The integer instructions on registers and immediates in `ISS::exec_step`.
use symex_vp.Instr.Mapping.{
  Mapping, addi, slti, sltiu, xori, ori, andi, slli, srli, srai, add, sub, sll, slt, sltu, xor, srl,
  sra, or, and, lui, auipc,
}
use symex_vp.Core.Clover.{Clover}
use symex_vp.Core.State.{State}
use symex_vp.Core.Operands.{reg1, reg2, reg2_shamt, i_immediate, u_immediate, shamt, last_pc_value}
use symex_vp.Common.{Option, none, some}

module _ (k : Clover) {D : Type 0} where
  -- What an instruction of this kind writes to its destination; `none` for any other instruction.
  unfoldable pub integer_result : Mapping → State k.Value D → Option k.Value
  integer_result addi s = some (k.add (reg1 k s) (i_immediate k s))
  integer_result slti s = some (k.slt (reg1 k s) (i_immediate k s))
  integer_result sltiu s = some (k.ult (reg1 k s) (i_immediate k s))
  integer_result xori s = some (k.bxor (reg1 k s) (i_immediate k s))
  integer_result ori s = some (k.bor (reg1 k s) (i_immediate k s))
  integer_result andi s = some (k.band (reg1 k s) (i_immediate k s))
  integer_result add s = some (k.add (reg1 k s) (reg2 k s))
  integer_result sub s = some (k.sub (reg1 k s) (reg2 k s))
  integer_result sll s = some (k.lshl (reg1 k s) (reg2_shamt k s))
  integer_result slt s = some (k.slt (reg1 k s) (reg2 k s))
  integer_result sltu s = some (k.ult (reg1 k s) (reg2 k s))
  integer_result srl s = some (k.lshr (reg1 k s) (reg2_shamt k s))
  integer_result sra s = some (k.ashr (reg1 k s) (reg2_shamt k s))
  integer_result xor s = some (k.bxor (reg1 k s) (reg2 k s))
  integer_result or s = some (k.bor (reg1 k s) (reg2 k s))
  integer_result and s = some (k.band (reg1 k s) (reg2 k s))
  integer_result slli s = some (k.lshl (reg1 k s) (shamt k s))
  integer_result srli s = some (k.lshr (reg1 k s) (shamt k s))
  integer_result srai s = some (k.ashr (reg1 k s) (shamt k s))
  integer_result lui s = some (u_immediate k s)
  integer_result auipc s = some (k.add (last_pc_value k s) (u_immediate k s))
  integer_result op s = none
