-- ===== src/Core/Clover.antt =====
-- What vp/src/core/rv32 uses of the library clover, which is not under the repository: concolic
-- bit vectors, with a concrete value and perhaps a symbolic one.
use symex_vp.Common.{ℕ, Bool, List}

pub record Clover : Type 1 where
  pub Value : Type 0
  -- `solver.BVC(std::nullopt, x)` of a 32-bit number, and of bytes.
  pub bvc : ℕ → Value
  pub bvc_of_bytes : List ℕ → Value
  -- `solver.BVCToBytes`
  pub bvc_to_bytes : ℕ → Value → List ℕ
  -- `solver.getValue<uint32_t>(v->concrete)`, `v->concrete->isTrue()`, `v->symbolic.has_value()`
  pub concrete : Value → ℕ
  pub is_true : Value → Bool
  pub has_symbolic : Value → Bool
  pub get_width : Value → ℕ
  -- Whether two `std::shared_ptr` are the same pointer.
  pub is_same : Value → Value → Bool
  pub add : Value → Value → Value
  pub sub : Value → Value → Value
  pub mul : Value → Value → Value
  pub udiv : Value → Value → Value
  pub sdiv : Value → Value → Value
  pub urem : Value → Value → Value
  pub srem : Value → Value → Value
  pub band : Value → Value → Value
  pub bor : Value → Value → Value
  pub bxor : Value → Value → Value
  pub lshl : Value → Value → Value
  pub lshr : Value → Value → Value
  pub ashr : Value → Value → Value
  pub eq : Value → Value → Value
  pub ne : Value → Value → Value
  pub slt : Value → Value → Value
  pub sge : Value → Value → Value
  pub ult : Value → Value → Value
  pub uge : Value → Value → Value
  -- `c->select(a, b)`: `a` where `c` is true, else `b`.
  pub select : Value → Value → Value → Value
  pub sext : ℕ → Value → Value
  pub zext : ℕ → Value → Value
  -- `v->extract(offset, width)`
  pub extract : ℕ → ℕ → Value → Value
