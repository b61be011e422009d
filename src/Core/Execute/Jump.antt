-- ===== src/Core/Execute/Jump.antt =====
-- The jumps and branches in `ISS::exec_step`.
use symex_vp.Common.{ℕ, ◌*◌, ◌/◌, if◌then◌else◌, add32, Option, none, some}
use symex_vp.Instr.Mapping.{Mapping, jal, jalr, beq, bne, blt, bge, bltu, bgeu}
use symex_vp.Instr.Fields.{j_imm, i_imm, b_imm}
use symex_vp.Iss.Action.{Action, modify, skip, ◌>>◌}
use symex_vp.Core.Clover.{Clover}
use symex_vp.Core.State.{State, set_pc}
use symex_vp.Core.Operands.{
  reg1, reg2, pc_value, write_rd, trap_check_pc_alignment, track_and_trace_branch,
}

module _ (k : Clover) {D : Type 0} where
  -- The address after the instruction is the link, once the target is known to be aligned.
  unfoldable pub jump : (State k.Value D → ℕ) → Action (State k.Value D) (Unit {0})
  unfolding trap_check_pc_alignment write_rd
  jump target s =
      let link = pc_value k s in
      (modify (set_pc (target s)) >> (trap_check_pc_alignment k >> write_rd k link)) s

  unfoldable pub branch : (k.Value → k.Value → k.Value) → Action (State k.Value D) (Unit {0})
  unfolding trap_check_pc_alignment track_and_trace_branch
  branch compare_values s =
      let res = compare_values (reg1 k s) (reg2 k s) in
      let cond = k.is_true res in
      ((if cond
            then (modify (set_pc (add32 s.hart.last_pc (b_imm s.hart.instr)))
                >> trap_check_pc_alignment k)
            else skip)
          >> track_and_trace_branch k cond res)
        s

  unfoldable pub execute_jump : Mapping → Option (Action (State k.Value D) (Unit {0}))
  unfolding jump branch
  execute_jump jal = some (jump (λ s. add32 s.hart.last_pc (j_imm s.hart.instr)))
  execute_jump jalr = some (jump (λ s. add32 (k.concrete (reg1 k s)) (i_imm s.hart.instr) / 2 * 2))
  execute_jump beq = some (branch k.eq)
  execute_jump bne = some (branch k.ne)
  execute_jump blt = some (branch k.slt)
  execute_jump bge = some (branch k.sge)
  execute_jump bltu = some (branch k.ult)
  execute_jump bgeu = some (branch k.uge)
  execute_jump op = none
