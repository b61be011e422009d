-- ===== src/Core/Execute/Multiply.antt =====
-- The multiplications and divisions of the M extension in `ISS::exec_step`.
use symex_vp.Common.{ℕ, if◌then◌else◌, Option, none, some, ◌^◌, ◌-◌}
use symex_vp.Instr.Mapping.{Mapping, mul, mulh, mulhu, mulhsu, div, divu, rem, remu}
use symex_vp.Iss.Action.{Action, ◌>>◌}
use symex_vp.Core.Clover.{Clover}
use symex_vp.Core.State.{State}
use symex_vp.Core.Operands.{reg1, reg2, write_rd, require_isa, m_extension, track_and_trace_branch}

module _ (k : Clover) where
  -- `REG_UINT32_MAX`, `REG_INT32_MIN` and `REG_ZERO`
  abbrev pub reg_uint32_max : k.Value
  reg_uint32_max = k.bvc (2 ^ 32 - 1)

  abbrev pub reg_int32_min : k.Value
  reg_int32_min = k.bvc (2 ^ 31)

  abbrev pub reg_zero : k.Value
  reg_zero = k.bvc 0

  -- Whether the signed division overflows.
  unfoldable pub is_overflow : k.Value → k.Value → k.Value
  is_overflow a b = k.band (k.eq a reg_int32_min) (k.eq b reg_uint32_max)

module _ (k : Clover) {D : Type 0} where
  -- The product of two operands of 64 bits, from which 32 bits are written.
  unfoldable pub multiply :
      (k.Value → k.Value) → (k.Value → k.Value) → ℕ → Action (State k.Value D) (Unit {0})
  unfolding require_isa write_rd
  multiply widen1 widen2 offset = require_isa k m_extension >> λ s.
      write_rd k (k.extract offset 32 (k.mul (widen1 (reg1 k s)) (widen2 (reg2 k s)))) s

  -- A division with what it gives at zero and otherwise; the test of zero is traced.
  unfoldable pub divide :
      (k.Value → k.Value) → (k.Value → k.Value → k.Value) → Action (State k.Value D) (Unit {0})
  unfolding require_isa write_rd track_and_trace_branch
  divide at_zero quotient = require_isa k m_extension >> λ s.
      (let expr_zero = k.eq (reg2 k s) (reg_zero k) in
        let cond_is_rs2_zero = k.is_true expr_zero in
        let ans = if cond_is_rs2_zero then at_zero (reg1 k s) else quotient (reg1 k s) (reg2 k s) in
        (write_rd k ans >> track_and_trace_branch k cond_is_rs2_zero expr_zero) s)

  unfoldable pub execute_multiply : Mapping → Option (Action (State k.Value D) (Unit {0}))
  unfolding multiply divide is_overflow
  execute_multiply mul = some (multiply (k.sext 64) (k.sext 64) 0)
  execute_multiply mulh = some (multiply (k.sext 64) (k.sext 64) 32)
  execute_multiply mulhu = some (multiply (k.zext 64) (k.zext 64) 32)
  execute_multiply mulhsu = some (multiply (k.sext 64) (k.zext 64) 32)
  execute_multiply div =
      some (divide (λ _. reg_uint32_max k) (λ a b. k.select (is_overflow k a b) a (k.sdiv a b)))
  execute_multiply divu = some (divide (λ _. reg_uint32_max k) k.udiv)
  execute_multiply rem =
      some (divide (λ a. a) (λ a b. k.select (is_overflow k a b) (reg_zero k) (k.srem a b)))
  execute_multiply remu = some (divide (λ a. a) k.urem)
  execute_multiply op = none
