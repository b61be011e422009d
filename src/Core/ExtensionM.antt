-- ===== src/Core/ExtensionM.antt =====
-- The whole M extension in vp/src/core/rv32/iss.cpp against the architecture.
use symex_vp.Common.{
  ℕ, ◌-◌, ◌/◌, ◌%◌, ◌^◌, ◌<◌, ◌≡◌, true, false, if◌then◌else◌, Option, none, some, arith,
}
use symex_vp.Csr.Fields.{has_extension}
use symex_vp.Csr.Register.{misa}
use symex_vp.Instr.Mapping.{Mapping, mul, mulh, mulhu, mulhsu, div, divu, rem, remu}
use symex_vp.Iss.Hart.{Result}
use symex_vp.Core.Clover.{Clover}
use symex_vp.Core.State.{State}
use symex_vp.Core.Interface.{Memory, Environment}
use symex_vp.Core.Semantics.{Semantics, sign_extended, signed_quotient, signed_remainder}
use symex_vp.Core.Operands.{reg1, reg2, m_extension}
use symex_vp.Core.Execute.Integer.{integer_result}
use symex_vp.Core.Execute.Jump.{execute_jump}
use symex_vp.Core.Execute.Transfer.{execute_transfer}
use symex_vp.Core.Execute.System.{execute_system}
use symex_vp.Core.Execute.Multiply.{execute_multiply, is_overflow, reg_zero, reg_uint32_max}
use symex_vp.Core.Step.{execute}
use symex_vp.Core.Isa.{isa_m, overflows}
use symex_vp.Core.Refines.{HasOperands}
use symex_vp.Core.Products.{
  Leaves, multiply-Leaves, divide-Leaves, chosen, zero-Is, upper_lem, lower_lem,
}

module _ (k : Clover) (sem : Semantics k) (D : Type 0) (mem : Memory (State k.Value D) k.Value)
    (env : Environment (State k.Value D)) (s : State k.Value D) where
  -- The result of the instruction that the architecture describes, if it is one of M.
  abbrev pub LeavesResult : Option ℕ → Result (Unit {0}) × State k.Value D → Type 0
  LeavesResult none out = Unit
  LeavesResult (some z) out = Leaves k sem D s z out

  -- With clover's operations as documented (`Semantics`), and the M extension in `misa`, each of
  -- its eight instructions, whose word, address and operands are of 32 bits, writes the word that
  -- the architecture says to its destination: the lower or the upper half of the product of the
  -- operands as signed or unsigned numbers, or the quotient or remainder, with the results that
  -- are fixed for a division by zero and for the overflow of a signed division. It changes nothing
  -- else but the trace of branches.
  pub execute-isa_m :
      (op : Mapping) (x y : ℕ)
      → HasOperands k sem D s x y
      → x < 2 ^ 32
      → y < 2 ^ 32
      → has_extension (s.hart.csrs misa) m_extension ≡ true
      → LeavesResult (isa_m op x y) (execute k mem env op s)
  unfolding execute integer_result execute_jump execute_transfer execute_system execute_multiply
      isa_m
  execute-isa_m mul x y o hx hy m =
      multiply-Leaves k sem D s (k.sext 64) (k.sext 64) 0 x y (sign_extended 32 64 x)
        (sign_extended 32 64 y) _ m (omega arith)
        (sem.sext_is (reg1 k s) 32 64 x (omega arith) o.first)
        (sem.sext_is (reg2 k s) 32 64 y (omega arith) o.second) (lower_lem x y hx hy)
  execute-isa_m mulh x y o hx hy m =
      multiply-Leaves k sem D s (k.sext 64) (k.sext 64) 32 x y (sign_extended 32 64 x)
        (sign_extended 32 64 y) _ m (omega arith)
        (sem.sext_is (reg1 k s) 32 64 x (omega arith) o.first)
        (sem.sext_is (reg2 k s) 32 64 y (omega arith) o.second) (upper_lem true true x y hx hy)
  execute-isa_m mulhu x y o hx hy m =
      multiply-Leaves k sem D s (k.zext 64) (k.zext 64) 32 x y x y _ m (omega arith)
        (sem.zext_is (reg1 k s) 32 64 x (omega arith) o.first)
        (sem.zext_is (reg2 k s) 32 64 y (omega arith) o.second) (upper_lem false false x y hx hy)
  execute-isa_m mulhsu x y o hx hy m =
      multiply-Leaves k sem D s (k.sext 64) (k.zext 64) 32 x y (sign_extended 32 64 x) y _ m
        (omega arith) (sem.sext_is (reg1 k s) 32 64 x (omega arith) o.first)
        (sem.zext_is (reg2 k s) 32 64 y (omega arith) o.second) (upper_lem true false x y hx hy)
  execute-isa_m div x y o hx hy m =
      divide-Leaves k sem D s (λ _. reg_uint32_max k)
        (λ a b. k.select (is_overflow k a b) a (k.sdiv a b)) x y (2 ^ 32 - 1)
        (if overflows x y then x else signed_quotient 32 x y) m o.second
        (sem.bvc_is (2 ^ 32 - 1) (omega arith))
        (λ ne.
          chosen k sem D s x y x (signed_quotient 32 x y) (reg1 k s) (k.sdiv (reg1 k s) (reg2 k s))
            o.first o.second o.first (sem.sdiv_is (reg1 k s) (reg2 k s) 32 x y ne o.first o.second))
  execute-isa_m divu x y o hx hy m =
      divide-Leaves k sem D s (λ _. reg_uint32_max k) k.udiv x y (2 ^ 32 - 1) (x / y) m o.second
        (sem.bvc_is (2 ^ 32 - 1) (omega arith))
        (λ ne. sem.udiv_is (reg1 k s) (reg2 k s) 32 x y ne o.first o.second)
  execute-isa_m rem x y o hx hy m =
      divide-Leaves k sem D s (λ a. a)
        (λ a b. k.select (is_overflow k a b) (reg_zero k) (k.srem a b)) x y x
        (if overflows x y then 0 else signed_remainder 32 x y) m o.second o.first
        (λ ne.
          chosen k sem D s x y 0 (signed_remainder 32 x y) (reg_zero k)
            (k.srem (reg1 k s) (reg2 k s)) o.first o.second (zero-Is k sem D s)
            (sem.srem_is (reg1 k s) (reg2 k s) 32 x y ne o.first o.second))
  execute-isa_m remu x y o hx hy m =
      divide-Leaves k sem D s (λ a. a) k.urem x y x (x % y) m o.second o.first
        (λ ne. sem.urem_is (reg1 k s) (reg2 k s) 32 x y ne o.first o.second)
  execute-isa_m op x y o hx hy m = tt
