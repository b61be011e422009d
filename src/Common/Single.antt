-- ===== src/Common/Single.antt =====
-- Masks of a single bit, `1 << i`.
use Prim.Native.Nat.{ℕ, zero, suc, ◌*◌, ◌/◌, ◌^◌, ◌≤◌, ◌<◌, bit_and}
use mathlib.Core.Path.{◌≡◌, refl, ◌∙◌, ap}
use mathlib.Core.Bool.{true, not}
use native.Mathlib.Omega.{arith}
use native.Mathlib.Nat.{one-le-pow, pow-suc}
use symex_vp.Common.Tests.{if◌then◌else◌, ◌==◌, ==→eq, all_below, in_range}
use symex_vp.Common.Words.{shl32, truth}
use symex_vp.Common.Flags.{flag, flag-le, flag-zero, pow-bit_and}
use symex_vp.Common.Merge.{bit_and_comm}

one_bit_table : all_below 32 (λ i. shl32 1 i == 2 ^ i) ≡ true
unfolding all_below
one_bit_table = refl

one_bit : (i : ℕ) → i < 32 → shl32 1 i ≡ 2 ^ i
one_bit i lt = ==→eq (shl32 1 i) (2 ^ i) (in_range (λ n. shl32 1 n == 2 ^ n) i 32 lt one_bit_table)

bit_test : (f p : ℕ) → f ≤ 1 → 0 < p → not (truth (f * p)) ≡ (f == 0)
bit_test zero p le pos = ground arith
bit_test (suc zero) p le pos = ground (arith, pos)
bit_test (suc (suc f)) p le pos = absurd (omega arith)

pub one_bit-unset : (i x : ℕ) → i < 32 → not (truth (bit_and (shl32 1 i) x)) ≡ (flag i x == 0)
one_bit-unset i x lt =
    ap (λ t. not (truth (bit_and t x))) (one_bit i lt)
    ∙ ap (λ t. not (truth t)) (pow-bit_and i x)
    ∙ bit_test (flag i x) (2 ^ i) (flag-le i x) (one-le-pow i 2 (omega arith))

flag-pow : (i j : ℕ) → flag i (2 ^ j) ≡ (if i == j then 1 else 0)
unfolding flag
flag-pow zero zero = refl
flag-pow zero (suc j) = ground (arith, pow-suc 2 j)
flag-pow (suc i) zero = ground (arith, flag-zero i)
flag-pow (suc i) (suc j) =
    let half : 2 ^ suc j / 2 ≡ 2 ^ j = omega (arith, pow-suc 2 j) in
    ground (arith, ap (flag i) half, flag-pow i j)

pub one_bit-set : (i x : ℕ) → i < 32 → truth (bit_and x (shl32 1 i)) ≡ (flag i x == 1)
one_bit-set i x lt = ground (arith, one_bit-unset i x lt, bit_and_comm x (shl32 1 i), flag-le i x)

pub flag-one_bit : (i j : ℕ) → j < 32 → flag i (shl32 1 j) ≡ (if i == j then 1 else 0)
flag-one_bit i j lt = ap (flag i) (one_bit j lt) ∙ flag-pow i j
