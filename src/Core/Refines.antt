-- ===== src/Core/Refines.antt =====
-- The integer instructions of vp/src/core/rv32/iss.cpp compute what the architecture says.
use symex_vp.Common.{ℕ, ◌/◌, ◌%◌, ◌^◌, ◌≤◌, ◌<◌, ◌≡◌, ◌∙◌, Option, none, some, arith, and_field}
use symex_vp.Instr.Fields
use symex_vp.Instr.FieldLaws.{immediates_lem}
use symex_vp.Instr.Mapping.{
  Mapping, addi, slti, sltiu, xori, ori, andi, slli, srli, srai, add, sub, sll, slt, sltu, xor, srl,
  sra, or, and, lui, auipc,
}
use symex_vp.Core.Clover.{Clover}
use symex_vp.Core.State.{State}
use symex_vp.Core.RegFile
use symex_vp.Core.Semantics.{Semantics, Is, sign_extended}
use symex_vp.Core.Operands.{reg1, reg2, reg2_shamt, i_immediate, u_immediate, shamt}
use symex_vp.Core.Execute.Integer.{integer_result}
use symex_vp.Core.Isa.{isa, i_field, u_field, shift_field}

module _ (k : Clover) (sem : Semantics k) (D : Type 0) (s : State k.Value D) where
  -- The operands of an instruction: the registers that it names hold `x` and `y`.
  pub record HasOperands (x y : ℕ) : Type 0 where
    pub first : Is k sem.value (reg1 k s) 32 x
    pub second : Is k sem.value (reg2 k s) 32 y
    pub word : s.hart.instr < 2 ^ 32
    pub address : s.hart.last_pc < 2 ^ 32

  i_immediate-Is :
      s.hart.instr < 2 ^ 32 → Is k sem.value (i_immediate k s) 32 (i_field s.hart.instr)
  i_immediate-Is h =
      let e : Fields.i_imm s.hart.instr ≡ i_field s.hart.instr =
        (immediates_lem s.hart.instr h).0 in
      let small : Fields.i_imm s.hart.instr < 2 ^ 32 = ground (arith, e) in
      let c : Is k sem.value (k.bvc (Fields.i_imm s.hart.instr)) 32 (i_field s.hart.instr) = (
        (sem.bvc_is (Fields.i_imm s.hart.instr) small).0,
        (sem.bvc_is (Fields.i_imm s.hart.instr) small).1 ∙ e,
      ) in
      let r : Is k sem.value (i_immediate k s) 32 (sign_extended 32 32 (i_field s.hart.instr)) =
        sem.sext_is (k.bvc (Fields.i_imm s.hart.instr)) 32 32 (i_field s.hart.instr) (omega arith)
          c in
      (r.0, r.1 ∙ ground arith)

  u_immediate-Is :
      s.hart.instr < 2 ^ 32 → Is k sem.value (u_immediate k s) 32 (u_field s.hart.instr)
  u_immediate-Is h =
      let e : Fields.u_imm s.hart.instr ≡ u_field s.hart.instr =
        (immediates_lem s.hart.instr h).3 in
      let b : Is k sem.value (k.bvc (Fields.u_imm s.hart.instr)) 32 (Fields.u_imm s.hart.instr) =
        sem.bvc_is (Fields.u_imm s.hart.instr) (omega (arith, e)) in
      (b.0, b.1 ∙ e)

  shamt-Is : Is k sem.value (shamt k s) 32 (shift_field s.hart.instr)
  unfolding Fields.shamt
  shamt-Is =
      let e : Fields.shamt s.hart.instr ≡ shift_field s.hart.instr =
        omega (arith, and_field 20 6 s.hart.instr) in
      let b : Is k sem.value (k.bvc (Fields.shamt s.hart.instr)) 32 (Fields.shamt s.hart.instr) =
        sem.bvc_is (Fields.shamt s.hart.instr) (omega (arith, e)) in
      (b.0, b.1 ∙ e)

  reg2_shamt-Is :
      (y : ℕ) → Is k sem.value (reg2 k s) 32 y → Is k sem.value (reg2_shamt k s) 32 (y % 2 ^ 5)
  unfolding RegFile.shamt
  reg2_shamt-Is y h =
      let low : Is k sem.value (k.extract 0 5 (reg2 k s)) 5 (y / 2 ^ 0 % 2 ^ 5) =
        sem.extract_is (reg2 k s) 32 0 5 y (omega arith) h in
      let z : Is k sem.value (k.zext 32 (k.extract 0 5 (reg2 k s))) 32 (y / 2 ^ 0 % 2 ^ 5) =
        sem.zext_is (k.extract 0 5 (reg2 k s)) 5 32 (y / 2 ^ 0 % 2 ^ 5) (omega arith) low in
      (z.0, z.1 ∙ omega arith)

  -- A computed value agrees with a number, and is at most a word wide.
  abbrev pub Agrees : Option k.Value → Option ℕ → Type 0
  Agrees none none = Unit
  Agrees none (some x) = ⊥
  Agrees (some v) none = ⊥
  Agrees (some v) (some x) = (w : ℕ) × (w ≤ 32) × Is k sem.value v w x

  pub integer_result-isa :
      (op : Mapping) (x y : ℕ)
      → HasOperands x y
      → Agrees (integer_result k op s) (isa op s.hart.instr s.hart.last_pc x y)
  unfolding integer_result isa
  integer_result-isa addi x y o =
      (32, omega arith, sem.add_is _ _ 32 x (i_field s.hart.instr) o.first (i_immediate-Is o.word))
  integer_result-isa slti x y o =
      (1, omega arith, sem.slt_is _ _ 32 x (i_field s.hart.instr) o.first (i_immediate-Is o.word))
  integer_result-isa sltiu x y o =
      (1, omega arith, sem.ult_is _ _ 32 x (i_field s.hart.instr) o.first (i_immediate-Is o.word))
  integer_result-isa xori x y o =
      (32, omega arith, sem.bxor_is _ _ 32 x (i_field s.hart.instr) o.first (i_immediate-Is o.word))
  integer_result-isa ori x y o =
      (32, omega arith, sem.bor_is _ _ 32 x (i_field s.hart.instr) o.first (i_immediate-Is o.word))
  integer_result-isa andi x y o =
      (32, omega arith, sem.band_is _ _ 32 x (i_field s.hart.instr) o.first (i_immediate-Is o.word))
  integer_result-isa add x y o = (32, omega arith, sem.add_is _ _ 32 x y o.first o.second)
  integer_result-isa sub x y o = (32, omega arith, sem.sub_is _ _ 32 x y o.first o.second)
  integer_result-isa sll x y o =
      (32, omega arith, sem.lshl_is _ _ 32 x (y % 2 ^ 5) o.first (reg2_shamt-Is y o.second))
  integer_result-isa slt x y o = (1, omega arith, sem.slt_is _ _ 32 x y o.first o.second)
  integer_result-isa sltu x y o = (1, omega arith, sem.ult_is _ _ 32 x y o.first o.second)
  integer_result-isa srl x y o =
      (32, omega arith, sem.lshr_is _ _ 32 x (y % 2 ^ 5) o.first (reg2_shamt-Is y o.second))
  integer_result-isa sra x y o =
      (32, omega arith, sem.ashr_is _ _ 32 x (y % 2 ^ 5) o.first (reg2_shamt-Is y o.second))
  integer_result-isa xor x y o = (32, omega arith, sem.bxor_is _ _ 32 x y o.first o.second)
  integer_result-isa or x y o = (32, omega arith, sem.bor_is _ _ 32 x y o.first o.second)
  integer_result-isa and x y o = (32, omega arith, sem.band_is _ _ 32 x y o.first o.second)
  integer_result-isa slli x y o =
      (32, omega arith, sem.lshl_is _ _ 32 x (shift_field s.hart.instr) o.first shamt-Is)
  integer_result-isa srli x y o =
      (32, omega arith, sem.lshr_is _ _ 32 x (shift_field s.hart.instr) o.first shamt-Is)
  integer_result-isa srai x y o =
      (32, omega arith, sem.ashr_is _ _ 32 x (shift_field s.hart.instr) o.first shamt-Is)
  integer_result-isa lui x y o = (32, omega arith, u_immediate-Is o.word)
  integer_result-isa auipc x y o = (
    32,
    omega arith,
    sem.add_is _ _ 32 s.hart.last_pc (u_field s.hart.instr) (sem.bvc_is s.hart.last_pc o.address)
        (u_immediate-Is o.word),
  )
  integer_result-isa op x y o = tt
