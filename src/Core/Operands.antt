-- ===== src/Core/Operands.antt =====
-- The macros and the inline functions that the instructions of vp/src/core/rv32/iss.cpp are written
-- with: operands, checks of alignment and extensions, and the trace of branches.
use symex_vp.Common.{ℕ, ◌%◌, Bool, ◌&&◌, not, if◌then◌else◌, truth, bit_and, ◌∷◌, none, some}
use symex_vp.Csr.Register.{misa}
use symex_vp.Csr.Fields.{has_extension, c_extension}
use symex_vp.Instr.Fields
use symex_vp.Iss.Hart.{returned, aborted}
use symex_vp.Iss.Action.{Action, raise_if}
use symex_vp.Iss.Rights.{raise_illegal_instruction}
use symex_vp.Core.Clover.{Clover}
use symex_vp.Core.State.{State}
use symex_vp.Core.RegFile

abbrev pub exc_instr_addr_misaligned : ℕ
exc_instr_addr_misaligned = 0

abbrev pub exc_load_addr_misaligned : ℕ
exc_load_addr_misaligned = 4

abbrev pub exc_store_amo_addr_misaligned : ℕ
exc_store_amo_addr_misaligned = 6

abbrev pub m_extension : ℕ
m_extension = 0x1000

abbrev pub a_extension : ℕ
a_extension = 0x1

-- `PC`, `I_IMM` and the like: the program counters and fields of the instruction as values.
module _ (k : Clover) {D : Type 0} (s : State k.Value D) where
  abbrev pub rd : ℕ
  rd = Fields.rd s.hart.instr

  abbrev pub reg1 : k.Value
  reg1 = RegFile.element k s.regs (Fields.rs1 s.hart.instr)

  abbrev pub reg2 : k.Value
  reg2 = RegFile.element k s.regs (Fields.rs2 s.hart.instr)

  abbrev pub reg2_shamt : k.Value
  reg2_shamt = RegFile.shamt k (Fields.rs2 s.hart.instr) s.regs

  abbrev pub pc_value : k.Value
  pc_value = k.bvc s.hart.pc

  abbrev pub last_pc_value : k.Value
  last_pc_value = k.bvc s.hart.last_pc

  abbrev pub i_immediate : k.Value
  i_immediate = k.sext 32 (k.bvc (Fields.i_imm s.hart.instr))

  abbrev pub s_immediate : k.Value
  s_immediate = k.sext 32 (k.bvc (Fields.s_imm s.hart.instr))

  abbrev pub u_immediate : k.Value
  u_immediate = k.bvc (Fields.u_imm s.hart.instr)

  abbrev pub shamt : k.Value
  shamt = k.bvc (Fields.shamt s.hart.instr)

module _ (k : Clover) {D : Type 0} where
  -- `RAISE_ILLEGAL_INSTRUCTION()` and `REQUIRE_ISA`
  abbrev pub illegal : {A : Type 0} → Action (State k.Value D) A
  illegal s = (raise_illegal_instruction s.hart, s)

  unfoldable pub require_isa : ℕ → Action (State k.Value D) (Unit {0})
  require_isa extension s =
      if has_extension (s.hart.csrs misa) extension
      then (returned tt, s)
      else (raise_illegal_instruction s.hart, s)

  -- `regs.write(RD, value)`
  unfoldable pub write_rd : k.Value → Action (State k.Value D) (Unit {0})
  write_rd value s = elim (RegFile.write k (rd k s) value s.regs) [
    | none ↦ (aborted, s)
    | some regs ↦ (returned tt, record s { regs = regs })
  ]

  unfoldable pub trap_check_pc_alignment : Action (State k.Value D) (Unit {0})
  trap_check_pc_alignment s =
      if not (truth (bit_and s.hart.pc 0x1))
      then raise_if
          (truth (bit_and s.hart.pc 0x3) && not (has_extension (s.hart.csrs misa) c_extension))
          exc_instr_addr_misaligned s.hart.pc s
      else (aborted, s)

  unfoldable pub trap_check_addr_alignment :
      ℕ → Bool → k.Value → Action (State k.Value D) (Unit {0})
  trap_check_addr_alignment alignment is_load addr =
      raise_if (truth (k.concrete addr % alignment))
        (if is_load then exc_load_addr_misaligned else exc_store_amo_addr_misaligned)
        (k.concrete addr)

  unfoldable pub track_and_trace_branch : Bool → k.Value → Action (State k.Value D) (Unit {0})
  track_and_trace_branch cond expr s =
      if k.has_symbolic expr
      then (returned tt, record s { branches = (cond, expr, s.hart.last_pc) ∷ s.branches })
      else (returned tt, s)
