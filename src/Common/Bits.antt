-- ===== src/Common/Bits.antt =====
-- `&` and `|` at variables: splitting at a bit position, disjoint fields, masks.
use Prim.Native.Nat.{
  ℕ, zero, suc, ◌+◌, ◌-◌, ◌*◌, ◌/◌, ◌%◌, ◌^◌, ◌≤◌, ◌<◌, min, max, bit_and, bit_or,
}
use Prim.Native.Nat.{bit_and-bitwise, bit_or-bitwise}
use mathlib.Core.Path.{◌≡◌, refl, ◌∙◌, ap, sym}
use native.Mathlib.Omega.{arith}
use native.Mathlib.Nat.{pow-suc, one-le-pow}
use symex_vp.Common.Digits.{bit_and_step, bit_or_step}

le-zero : (a : ℕ) → a ≤ 0 → a ≡ 0
le-zero a h = omega arith

double_pow : (q k : ℕ) → q * 2 ^ suc k ≡ 2 * (q * 2 ^ k)
double_pow q k = omega (arith, ap (λ (t : ℕ). q * t) (pow-suc 2 k))

-- An operation that works digit by digit works on the high and the low part of its arguments.
module _ (g : ℕ → ℕ → ℕ) (f : ℕ → ℕ → ℕ)
    (step : (a b : ℕ) → g a b ≡ g (a / 2) (b / 2) * 2 + f (a % 2) (b % 2)) where
  split_at :
      (k q r s t : ℕ)
      → r < 2 ^ k
      → t < 2 ^ k
      → g (q * 2 ^ k + r) (s * 2 ^ k + t) ≡ g q s * 2 ^ k + g r t
  split_at zero q r s t hr ht = ground (arith, step 0 0)
  split_at (suc k) q r s t hr ht = ground (
    arith,
    double_pow q k,
    double_pow s k,
    double_pow (g q s) k,
    step (q * 2 ^ suc k + r) (s * 2 ^ suc k + t),
    step r t,
    split_at k q (r / 2) s (t / 2) (omega (arith, pow-suc 2 k)) (omega (arith, pow-suc 2 k)),
  )

or_split :
    (k q r s t : ℕ)
    → r < 2 ^ k
    → t < 2 ^ k
    → bit_or (q * 2 ^ k + r) (s * 2 ^ k + t) ≡ bit_or q s * 2 ^ k + bit_or r t
or_split = split_at bit_or max bit_or_step

and_split :
    (k q r s t : ℕ)
    → r < 2 ^ k
    → t < 2 ^ k
    → bit_and (q * 2 ^ k + r) (s * 2 ^ k + t) ≡ bit_and q s * 2 ^ k + bit_and r t
and_split = split_at bit_and min bit_and_step

zero-or : (a : ℕ) → bit_or 0 a ≡ a
zero-or a = bit_or-bitwise 0 a

zero-and : (a : ℕ) → bit_and 0 a ≡ 0
zero-and a = bit_and-bitwise 0 a

or-zero_upto : (n a : ℕ) → a ≤ n → bit_or a 0 ≡ a
or-zero_upto zero a h = rw (le-zero a h)
or-zero_upto (suc n) zero h = refl
or-zero_upto (suc n) (suc a) h =
    omega (arith, bit_or_step (suc a) 0, or-zero_upto n (suc a / 2) (omega arith))

or-zero : (a : ℕ) → bit_or a 0 ≡ a
or-zero a = or-zero_upto a a (omega arith)

and-zero_upto : (n a : ℕ) → a ≤ n → bit_and a 0 ≡ 0
and-zero_upto zero a h = rw (le-zero a h)
and-zero_upto (suc n) zero h = refl
and-zero_upto (suc n) (suc a) h =
    omega (arith, bit_and_step (suc a) 0, and-zero_upto n (suc a / 2) (omega arith))

pub and-zero : (a : ℕ) → bit_and a 0 ≡ 0
and-zero a = and-zero_upto a a (omega arith)

-- `(q << k) | r` is a sum where `r` fits in `k` bits; so is `r | (q << k)`.
pub or_high_low : (k q r : ℕ) → r < 2 ^ k → bit_or (q * 2 ^ k) r ≡ q * 2 ^ k + r
or_high_low k q r h =
    ground (arith, or_split k q 0 0 r (one-le-pow k 2 (omega arith)) h, or-zero q, zero-or r)

pub or_low_high : (k q r : ℕ) → r < 2 ^ k → bit_or r (q * 2 ^ k) ≡ q * 2 ^ k + r
or_low_high k q r h =
    ground (arith, or_split k 0 r q 0 h (one-le-pow k 2 (omega arith)), or-zero r, zero-or q)

and_ones : (k r : ℕ) → r < 2 ^ k → bit_and r (2 ^ k - 1) ≡ r
and_ones zero r h = ground (arith, zero-and 0)
and_ones (suc k) r h = ground (
  arith,
  bit_and_step r (2 ^ suc k - 1),
  double_pow 1 k,
  one-le-pow k 2 (omega arith),
  and_ones k (r / 2) (omega (arith, pow-suc 2 k)),
)

-- A mask of `k` low bits is the remainder by `2 ^ k`.
pub and_mask : (k a : ℕ) → bit_and a (2 ^ k - 1) ≡ a % 2 ^ k
and_mask k a = ground (
  arith,
  one-le-pow k 2 (omega arith),
  and_split k (a / 2 ^ k) (a % 2 ^ k) 0 (2 ^ k - 1),
  and-zero (a / 2 ^ k),
  and_ones k (a % 2 ^ k),
)

and_shifted : (k a m : ℕ) → bit_and a (m * 2 ^ k) ≡ bit_and (a / 2 ^ k) m * 2 ^ k
and_shifted k a m = ground (
  arith,
  one-le-pow k 2 (omega arith),
  and_split k (a / 2 ^ k) (a % 2 ^ k) m 0,
  and-zero (a % 2 ^ k),
)

-- A mask of `w` bits from bit `l` on cuts out a field.
pub and_field : (l w a : ℕ) → bit_and a ((2 ^ w - 1) * 2 ^ l) ≡ a / 2 ^ l % 2 ^ w * 2 ^ l
and_field l w a = and_shifted l a (2 ^ w - 1) ∙ ap (λ t. t * 2 ^ l) (and_mask w (a / 2 ^ l))

-- A mask below `2 ^ k` does not see the bits from `k` on.
pub and_low : (k a m : ℕ) → m < 2 ^ k → bit_and (a % 2 ^ k) m ≡ bit_and a m
and_low k a m h = ground (
  arith,
  one-le-pow k 2 (omega arith),
  and_split k (a / 2 ^ k) (a % 2 ^ k) 0 m,
  and-zero (a / 2 ^ k),
)

half_of : (a b : ℕ) → bit_and a b / 2 ≡ bit_and (a / 2) (b / 2)
half_of a b = omega (arith, bit_and_step a b)

and_assoc_upto : (n a b c : ℕ) → a ≤ n → bit_and (bit_and a b) c ≡ bit_and a (bit_and b c)
and_assoc_upto n zero b c h = simp zero-and
and_assoc_upto zero (suc a) b c h = absurd (omega arith)
and_assoc_upto (suc n) (suc a) b c h = omega (
  arith,
  bit_and_step (suc a) b,
  bit_and_step b c,
  bit_and_step (bit_and (suc a) b) c,
  bit_and_step (suc a) (bit_and b c),
  and_assoc_upto n (suc a / 2) (b / 2) (c / 2) (omega arith),
  ap (λ t. bit_and t (c / 2)) (half_of (suc a) b),
  ap (λ t. bit_and (suc a / 2) t) (half_of b c),
)

pub and_assoc : (a b c : ℕ) → bit_and (bit_and a b) c ≡ bit_and a (bit_and b c)
and_assoc a b c = and_assoc_upto a a b c (omega arith)

-- What is known under a mask is known under each mask within it.
pub and_narrow : (a m n e : ℕ) → bit_and a m ≡ e → bit_and m n ≡ n → bit_and a n ≡ bit_and e n
and_narrow a m n e h within =
    ap (λ t. bit_and a t) (sym within) ∙ sym (and_assoc a m n) ∙ ap (λ t. bit_and t n) h
