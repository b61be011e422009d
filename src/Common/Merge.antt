-- ===== src/Common/Merge.antt =====
-- Writes under a mask: `(reg & ~mask) | (value & mask)`.
use Prim.Native.Nat.{ℕ, zero, suc, ◌/◌, ◌^◌, ◌≤◌, ◌<◌, max, bit_and, bit_or, bit_and-bitwise}
use mathlib.Core.Path.{◌≡◌, ◌∙◌, ap, sym}
use mathlib.Core.Bool.{true, ◌||◌}
use native.Mathlib.Omega.{arith}
use native.Mathlib.Nat.{pow-suc}
use symex_vp.Common.Tests.{◌==◌, if◌then◌else◌, all_below, in_range}
use symex_vp.Common.Bits.{and-zero}
use symex_vp.Common.Digits.{bit_and_step, bit_or_step}
use symex_vp.Common.Words.{not32}
use symex_vp.Common.Flags.{flag, flag-bit_and, flag-and_not, flag-le, flag-high, bit_and-le}

pub flag-bit_or : (i a b : ℕ) → flag i (bit_or a b) ≡ max (flag i a) (flag i b)
unfolding flag
flag-bit_or zero a b = omega (arith, bit_or_step a b)
flag-bit_or (suc i) a b =
    let half : bit_or a b / 2 ≡ bit_or (a / 2) (b / 2) = omega (arith, bit_or_step a b) in
    ap (λ t. flag i t) half ∙ flag-bit_or i (a / 2) (b / 2)

pub bit_or-lt : (w a b : ℕ) → a < 2 ^ w → b < 2 ^ w → bit_or a b < 2 ^ w
bit_or-lt zero zero zero ha hb = omega arith
bit_or-lt zero zero (suc b) ha hb = absurd (omega arith)
bit_or-lt zero (suc a) b ha hb = absurd (omega arith)
bit_or-lt (suc w) a b ha hb = omega (
  arith,
  pow-suc 2 w,
  bit_or_step a b,
  bit_or-lt w (a / 2) (b / 2) (omega (arith, pow-suc 2 w)) (omega (arith, pow-suc 2 w)),
)

bit_and-le_right_upto : (n a b : ℕ) → a ≤ n → bit_and a b ≤ b
bit_and-le_right_upto n zero b h = omega (arith, bit_and-bitwise 0 b)
bit_and-le_right_upto zero (suc a) b h = absurd (omega arith)
bit_and-le_right_upto (suc n) (suc a) b h =
    omega (arith, bit_and_step (suc a) b, bit_and-le_right_upto n (suc a / 2) (b / 2) (omega arith))

pub bit_and-le_right : (a b : ℕ) → bit_and a b ≤ b
bit_and-le_right a b = bit_and-le_right_upto a a b (omega arith)

module _ (mask value reg : ℕ) (small : mask < 2 ^ 32) (word : reg < 2 ^ 32) where
  pub merge-lt : bit_or (bit_and reg (not32 mask)) (bit_and value mask) < 2 ^ 32
  merge-lt =
      bit_or-lt 32 (bit_and reg (not32 mask)) (bit_and value mask)
        (omega (arith, bit_and-le reg (not32 mask))) (omega (arith, bit_and-le_right value mask))

  -- The flags in the mask are those of the value, the others those of the register.
  pub flag-merge :
      (i : ℕ)
      → flag i (bit_or (bit_and reg (not32 mask)) (bit_and value mask))
        ≡ (if flag i mask == 1 then flag i value else flag i reg)
  flag-merge i = ground (
    arith,
    flag-bit_or i (bit_and reg (not32 mask)) (bit_and value mask),
    flag-bit_and i value mask,
    flag-and_not i reg mask word small,
    flag-le i reg,
    flag-le i value,
    flag-le i mask,
  )

bit_and_comm_upto : (n a b : ℕ) → a ≤ n → bit_and a b ≡ bit_and b a
bit_and_comm_upto n zero b h = bit_and-bitwise 0 b ∙ sym (and-zero b)
bit_and_comm_upto zero (suc a) b h = absurd (omega arith)
bit_and_comm_upto (suc n) (suc a) b h = omega (
  arith,
  bit_and_step (suc a) b,
  bit_and_step b (suc a),
  bit_and_comm_upto n (suc a / 2) (b / 2) (omega arith),
)

pub bit_and_comm : (a b : ℕ) → bit_and a b ≡ bit_and b a
bit_and_comm a b = bit_and_comm_upto a a b (omega arith)

-- A mask within a mask, checked flag by flag.
pub within_mask :
    (m n : ℕ)
    → m < 2 ^ 32
    → all_below 32 (λ i. (flag i m == 0) || (flag i n == 1)) ≡ true
    → (i : ℕ) → flag i m ≡ 1
    → flag i n ≡ 1
within_mask m n small table i e =
    let lt : i < 32 = ground (arith, flag-high 32 i m small) in
    ground (arith, e, in_range (λ j. (flag j m == 0) || (flag j n == 1)) i 32 lt table)
