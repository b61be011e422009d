-- ===== src/Common/Digits.antt =====
-- The recurrence of the bit operations on the lowest binary digit.
use Prim.Native.Nat.{ℕ, zero, suc, ◌+◌, ◌-◌, ◌*◌, ◌/◌, ◌%◌, ◌≤◌, min, max, digits, bitwise, differ}
use Prim.Native.Nat.{bit_and, bit_or, bit_xor, bit_and-bitwise, bit_or-bitwise, bit_xor-bitwise}
use mathlib.Core.Path.{◌≡◌, refl, ◌∙◌, ap}
use native.Mathlib.Omega.{arith}

module _ (z : ℕ → ℕ) (f : ℕ → ℕ → ℕ) where
  -- One round more than the digits need changes nothing.
  digits_one_more : (n a b : ℕ) → a ≤ n → digits z f (suc n) a b ≡ digits z f n a b
  digits_one_more zero zero b h = refl
  digits_one_more zero (suc a) b h = absurd (omega arith)
  digits_one_more (suc n) zero b h = refl
  digits_one_more (suc n) (suc a) b h =
      omega (arith, digits_one_more n (suc a / 2) (b / 2) (omega arith))

  digits_more : (k a b : ℕ) → digits z f (k + a) a b ≡ digits z f a a b
  digits_more zero a b = ap (λ n. digits z f n a b) (omega arith)
  digits_more (suc k) a b =
      ap (λ n. digits z f n a b) {y = suc (k + a)} (omega arith)
      ∙ digits_one_more (k + a) a b (omega arith)
      ∙ digits_more k a b

  bitwise-suc :
      (m n : ℕ)
      → bitwise z f (suc m) n ≡ bitwise z f (suc m / 2) (n / 2) * 2 + f (suc m % 2) (n % 2)
  bitwise-suc m n =
      let enough : m ≡ (m - suc m / 2) + suc m / 2 = omega arith in
      ap (λ k. digits z f k (suc m / 2) (n / 2) * 2 + f (suc m % 2) (n % 2)) enough
      ∙ ap (λ t. t * 2 + f (suc m % 2) (n % 2)) (digits_more (m - suc m / 2) (suc m / 2) (n / 2))

  -- An operation that means the recursion on digits satisfies it, with no fuel left over.
  by_digit :
      (op : ℕ → ℕ → ℕ)
      → ((a b : ℕ) → op a b ≡ bitwise z f a b)
      → ((b : ℕ) → z b ≡ z (b / 2) * 2 + f 0 (b % 2))
      → (a b : ℕ) → op a b ≡ op (a / 2) (b / 2) * 2 + f (a % 2) (b % 2)
  by_digit op meaning base zero b = rw (meaning 0 b, meaning 0 (b / 2)) (base b)
  by_digit op meaning base (suc a) b =
      rw (meaning (suc a) b, meaning (suc a / 2) (b / 2)) (bitwise-suc a b)

pub bit_and_step : (a b : ℕ) → bit_and a b ≡ bit_and (a / 2) (b / 2) * 2 + min (a % 2) (b % 2)
bit_and_step = by_digit (λ y. 0) min bit_and bit_and-bitwise (λ b. omega arith)

pub bit_or_step : (a b : ℕ) → bit_or a b ≡ bit_or (a / 2) (b / 2) * 2 + max (a % 2) (b % 2)
bit_or_step = by_digit (λ y. y) max bit_or bit_or-bitwise (λ b. omega arith)

pub bit_xor_step : (a b : ℕ) → bit_xor a b ≡ bit_xor (a / 2) (b / 2) * 2 + differ (a % 2) (b % 2)
bit_xor_step = by_digit (λ y. y) differ bit_xor bit_xor-bitwise (λ b. omega arith)
