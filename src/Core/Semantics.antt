-- ===== src/Core/Semantics.antt =====
-- What clover documents of its operations, as far as vp/src/core/rv32/iss.cpp relies on it: the
-- concrete part of a concolic value is a bit vector, and the operations are those of bit vectors.
use symex_vp.Common.{
  ℕ, ◌+◌, ◌-◌, ◌*◌, ◌/◌, ◌%◌, ◌^◌, ◌≤◌, ◌<◌, ◌≡◌, ◌≢◌, Bool, ◌==◌, ltb, not, if◌then◌else◌, bit_and,
  bit_or, bit_xor,
}
use symex_vp.Core.Clover.{Clover}

-- A test as a bit vector of width 1.
abbrev pub flag_of : Bool → ℕ
flag_of b = if b then 1 else 0

-- The order of signed numbers of `w` bits, on their bit patterns.
abbrev pub signed_less : ℕ → ℕ → ℕ → Bool
signed_less w x y = ltb ((x + 2 ^ (w - 1)) % 2 ^ w) ((y + 2 ^ (w - 1)) % 2 ^ w)

-- `x` of `w` bits, sign extended to `n` bits.
abbrev pub sign_extended : ℕ → ℕ → ℕ → ℕ
sign_extended w n x = if ltb x (2 ^ (w - 1)) then x else x + (2 ^ n - 2 ^ w)

-- The arithmetic shift to the right of `w` bits.
abbrev pub shifted_signed : ℕ → ℕ → ℕ → ℕ
shifted_signed w x n = if ltb x (2 ^ (w - 1)) then x / 2 ^ n else x / 2 ^ n + (2 ^ w - 2 ^ (w - n))

-- The magnitude of a signed number, and a number with a sign.
abbrev pub magnitude : ℕ → ℕ → ℕ
magnitude w x = if ltb x (2 ^ (w - 1)) then x else 2 ^ w - x

abbrev pub signed : ℕ → Bool → ℕ → ℕ
signed w negative n = if negative then (2 ^ w - n) % 2 ^ w else n % 2 ^ w

abbrev pub is_negative : ℕ → ℕ → Bool
is_negative w x = not (ltb x (2 ^ (w - 1)))

-- Division of signed numbers toward zero, and its remainder, which has the sign of the dividend.
abbrev pub signed_quotient : ℕ → ℕ → ℕ → ℕ
signed_quotient w x y =
    signed w (if is_negative w x then not (is_negative w y) else is_negative w y)
      (magnitude w x / magnitude w y)

abbrev pub signed_remainder : ℕ → ℕ → ℕ → ℕ
signed_remainder w x y = signed w (is_negative w x) (magnitude w x % magnitude w y)

-- A value of a width with a concrete part.
abbrev pub Is : (k : Clover) → (k.Value → ℕ) → k.Value → ℕ → ℕ → Type 0
Is k value v w x = (k.get_width v ≡ w) × (value v ≡ x)

pub record Semantics (k : Clover) : Type 0 where
  pub value : k.Value → ℕ
  pub bvc_is : (x : ℕ) → x < 2 ^ 32 → Is k value (k.bvc x) 32 x
  pub concrete_is : (v : k.Value) (x : ℕ) → x < 2 ^ 32 → Is k value v 32 x → k.concrete v ≡ x
  pub is_true_is : (v : k.Value) (x : ℕ) → Is k value v 1 x → k.is_true v ≡ (x == 1)
  pub add_is :
      (a b : k.Value) (w x y : ℕ)
      → Is k value a w x
      → Is k value b w y
      → Is k value (k.add a b) w ((x + y) % 2 ^ w)
  pub sub_is :
      (a b : k.Value) (w x y : ℕ)
      → Is k value a w x
      → Is k value b w y
      → Is k value (k.sub a b) w ((x + 2 ^ w - y) % 2 ^ w)
  pub mul_is :
      (a b : k.Value) (w x y : ℕ)
      → Is k value a w x
      → Is k value b w y
      → Is k value (k.mul a b) w (x * y % 2 ^ w)
  pub udiv_is :
      (a b : k.Value) (w x y : ℕ)
      → y ≢ 0
      → Is k value a w x
      → Is k value b w y
      → Is k value (k.udiv a b) w (x / y)
  pub urem_is :
      (a b : k.Value) (w x y : ℕ)
      → y ≢ 0
      → Is k value a w x
      → Is k value b w y
      → Is k value (k.urem a b) w (x % y)
  pub sdiv_is :
      (a b : k.Value) (w x y : ℕ)
      → y ≢ 0
      → Is k value a w x
      → Is k value b w y
      → Is k value (k.sdiv a b) w (signed_quotient w x y)
  pub srem_is :
      (a b : k.Value) (w x y : ℕ)
      → y ≢ 0
      → Is k value a w x
      → Is k value b w y
      → Is k value (k.srem a b) w (signed_remainder w x y)
  pub band_is :
      (a b : k.Value) (w x y : ℕ)
      → Is k value a w x
      → Is k value b w y
      → Is k value (k.band a b) w (bit_and x y)
  pub bor_is :
      (a b : k.Value) (w x y : ℕ)
      → Is k value a w x
      → Is k value b w y
      → Is k value (k.bor a b) w (bit_or x y)
  pub bxor_is :
      (a b : k.Value) (w x y : ℕ)
      → Is k value a w x
      → Is k value b w y
      → Is k value (k.bxor a b) w (bit_xor x y)
  pub lshl_is :
      (a b : k.Value) (w x y : ℕ)
      → Is k value a w x
      → Is k value b w y
      → Is k value (k.lshl a b) w (x * 2 ^ y % 2 ^ w)
  pub lshr_is :
      (a b : k.Value) (w x y : ℕ)
      → Is k value a w x
      → Is k value b w y
      → Is k value (k.lshr a b) w (x / 2 ^ y)
  pub ashr_is :
      (a b : k.Value) (w x y : ℕ)
      → Is k value a w x
      → Is k value b w y
      → Is k value (k.ashr a b) w (shifted_signed w x y)
  pub eq_is :
      (a b : k.Value) (w x y : ℕ)
      → Is k value a w x
      → Is k value b w y
      → Is k value (k.eq a b) 1 (flag_of (x == y))
  pub ne_is :
      (a b : k.Value) (w x y : ℕ)
      → Is k value a w x
      → Is k value b w y
      → Is k value (k.ne a b) 1 (flag_of (not (x == y)))
  pub slt_is :
      (a b : k.Value) (w x y : ℕ)
      → Is k value a w x
      → Is k value b w y
      → Is k value (k.slt a b) 1 (flag_of (signed_less w x y))
  pub sge_is :
      (a b : k.Value) (w x y : ℕ)
      → Is k value a w x
      → Is k value b w y
      → Is k value (k.sge a b) 1 (flag_of (not (signed_less w x y)))
  pub ult_is :
      (a b : k.Value) (w x y : ℕ)
      → Is k value a w x
      → Is k value b w y
      → Is k value (k.ult a b) 1 (flag_of (ltb x y))
  pub uge_is :
      (a b : k.Value) (w x y : ℕ)
      → Is k value a w x
      → Is k value b w y
      → Is k value (k.uge a b) 1 (flag_of (not (ltb x y)))
  pub select_is :
      (c a b : k.Value) (w z x y : ℕ)
      → Is k value c 1 z
      → Is k value a w x
      → Is k value b w y
      → Is k value (k.select c a b) w (if z == 1 then x else y)
  pub sext_is :
      (a : k.Value) (w n x : ℕ)
      → w ≤ n
      → Is k value a w x
      → Is k value (k.sext n a) n (sign_extended w n x)
  pub zext_is : (a : k.Value) (w n x : ℕ) → w ≤ n → Is k value a w x → Is k value (k.zext n a) n x
  pub extract_is :
      (a : k.Value) (w o n x : ℕ)
      → o + n ≤ w
      → Is k value a w x
      → Is k value (k.extract o n a) n (x / 2 ^ o % 2 ^ n)
