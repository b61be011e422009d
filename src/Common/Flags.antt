-- ===== src/Common/Flags.antt =====
-- The binary digits of a word, one flag at a time.
use Prim.Native.Nat.{ℕ, zero, suc, ◌-◌, ◌*◌, ◌/◌, ◌%◌, ◌^◌, ◌≤◌, ◌<◌, min, bit_and, bit_and-bitwise}
use mathlib.Core.Path.{◌≡◌, refl, ◌∙◌, ap, sym}
use native.Mathlib.Omega.{arith}
use native.Mathlib.Nat.{pow-suc, one-le-pow}
use symex_vp.Common.Digits.{bit_and_step}
use symex_vp.Common.Words.{not32}

-- Halve `x` `i` times, and take the last digit.
unfoldable pub flag : ℕ → ℕ → ℕ
flag zero x = x % 2
flag (suc i) x = flag i (x / 2)

pub flag-bit_and : (i a b : ℕ) → flag i (bit_and a b) ≡ min (flag i a) (flag i b)
unfolding flag
flag-bit_and zero a b = omega (arith, bit_and_step a b)
flag-bit_and (suc i) a b =
    let half : bit_and a b / 2 ≡ bit_and (a / 2) (b / 2) = omega (arith, bit_and_step a b) in
    ap (λ t. flag i t) half ∙ flag-bit_and i (a / 2) (b / 2)

pub flag-zero : (i : ℕ) → flag i 0 ≡ 0
unfolding flag
flag-zero zero = refl
flag-zero (suc i) = flag-zero i

pub flag-le : (i a : ℕ) → flag i a ≤ 1
unfolding flag
flag-le zero a = omega arith
flag-le (suc i) a = flag-le i (a / 2)

flag-complement : (i w x : ℕ) → i < w → x < 2 ^ w → flag i (2 ^ w - 1 - x) ≡ 1 - flag i x
unfolding flag
flag-complement i zero x lt h = absurd (omega arith)
flag-complement zero (suc w) x lt h = omega (arith, pow-suc 2 w, one-le-pow w 2 (omega arith))
flag-complement (suc i) (suc w) x lt h =
    let half : (2 ^ suc w - 1 - x) / 2 ≡ 2 ^ w - 1 - x / 2 =
      omega (arith, pow-suc 2 w, one-le-pow w 2 (omega arith)) in
    ap (λ t. flag i t) half ∙ flag-complement i w (x / 2) (omega arith) (omega (arith, pow-suc 2 w))

pub flag-not32 : (i x : ℕ) → i < 32 → x < 2 ^ 32 → flag i (not32 x) ≡ 1 - flag i x
flag-not32 i x lt h = flag-complement i 32 x lt h

pub flag-high : (w i x : ℕ) → x < 2 ^ w → w ≤ i → flag i x ≡ 0
unfolding flag
flag-high zero i x h le = ap (λ t. flag i t) (omega arith) ∙ flag-zero i
flag-high (suc w) zero x h le = absurd (omega arith)
flag-high (suc w) (suc i) x h le = flag-high w i (x / 2) (omega (arith, pow-suc 2 w)) (omega arith)

-- The flags that `a` has outside `m`.
pub flag-and_not :
    (i a m : ℕ)
    → a < 2 ^ 32
    → m < 2 ^ 32
    → flag i (bit_and a (not32 m)) ≡ min (flag i a) (1 - flag i m)
flag-and_not i a m ha hm =
    ground (arith, flag-bit_and i a (not32 m), flag-not32 i m, flag-high 32 i a ha)

bit_and-le_upto : (n a b : ℕ) → a ≤ n → bit_and a b ≤ a
bit_and-le_upto n zero b h = omega (arith, bit_and-bitwise 0 b)
bit_and-le_upto zero (suc a) b h = absurd (omega arith)
bit_and-le_upto (suc n) (suc a) b h =
    omega (arith, bit_and_step (suc a) b, bit_and-le_upto n (suc a / 2) (b / 2) (omega arith))

pub bit_and-le : (a b : ℕ) → bit_and a b ≤ a
bit_and-le a b = bit_and-le_upto a a b (omega arith)

-- A mask of one bit reads a flag.
pub pow-bit_and : (i x : ℕ) → bit_and (2 ^ i) x ≡ flag i x * 2 ^ i
unfolding flag
pow-bit_and zero x = omega (arith, bit_and_step 1 x, bit_and-bitwise 0 (x / 2))
pow-bit_and (suc i) x =
    let half : 2 ^ suc i / 2 ≡ 2 ^ i = omega (arith, pow-suc 2 i) in
    let doubled : bit_and (2 ^ suc i) x ≡ bit_and (2 ^ i) (x / 2) * 2 =
      omega (arith, pow-suc 2 i, bit_and_step (2 ^ suc i) x, ap (λ t. bit_and t (x / 2)) half) in
    let power : flag i (x / 2) * 2 ^ suc i ≡ flag i (x / 2) * 2 ^ i * 2 =
      omega (arith, ap (λ t. flag i (x / 2) * t) (pow-suc 2 i)) in
    doubled ∙ ap (λ t. t * 2) (pow-bit_and i (x / 2)) ∙ sym power
