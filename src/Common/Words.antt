-- ===== src/Common/Words.antt =====
-- Machine words: bit patterns below `2 ^ 32`, with the casts and shifts of C++ written out.
use Prim.Native.Nat.{ℕ, ◌+◌, ◌-◌, ◌*◌, ◌/◌, ◌%◌, ◌^◌, bit_and, bit_or}
use mathlib.Core.Bool.{Bool, not}
use symex_vp.Common.Tests.{ltb, ◌==◌, if◌then◌else◌}

-- The value of an unsigned 32-bit expression.
abbrev pub u32 : ℕ → ℕ
u32 n = n % 2 ^ 32

-- `x << k`, cut to 32 bits.
abbrev pub shl32 : ℕ → ℕ → ℕ
shl32 x k = u32 (x * 2 ^ k)

-- `x >> k` of an unsigned value.
abbrev pub shr : ℕ → ℕ → ℕ
shr x k = x / 2 ^ k

-- `x >> k` of an `int32_t`, given and returned as its bit pattern.
abbrev pub sar32 : ℕ → ℕ → ℕ
sar32 x k = if ltb x (2 ^ 31) then x / 2 ^ k else x / 2 ^ k + (2 ^ 32 - 2 ^ (32 - k))

-- `~x` of a 32-bit value.
abbrev pub not32 : ℕ → ℕ
not32 x = 2 ^ 32 - 1 - x

-- `a + b` and `a - b` of 32-bit values.
abbrev pub add32 : ℕ → ℕ → ℕ
add32 a b = u32 (a + b)

abbrev pub sub32 : ℕ → ℕ → ℕ
sub32 a b = u32 (a + 2 ^ 32 - b)

-- The low `w` bits of `x`, sign extended to 32 bits.
abbrev pub sext32 : ℕ → ℕ → ℕ
sext32 w x = if ltb (x % 2 ^ w) (2 ^ (w - 1)) then x % 2 ^ w else x % 2 ^ w + 2 ^ 32 - 2 ^ w

-- An integer in a condition: true unless it is 0.
abbrev pub truth : ℕ → Bool
truth x = not (x == 0)

-- `(x >> pos) & 1` as a Boolean, for a flag in a register.
abbrev pub bit : ℕ → ℕ → Bool
bit x pos = x / 2 ^ pos % 2 == 1

infixl 40 ◌&&&◌
infixl 38 ◌|||◌
infixl 60 ◌<<<◌ ◌>>>◌
-- The operators of C++ on 32-bit values.
abbrev pub ◌&&&◌ : ℕ → ℕ → ℕ
a &&& b = bit_and a b

abbrev pub ◌|||◌ : ℕ → ℕ → ℕ
a ||| b = bit_or a b

abbrev pub ◌<<<◌ : ℕ → ℕ → ℕ
x <<< k = shl32 x k

abbrev pub ◌>>>◌ : ℕ → ℕ → ℕ
x >>> k = shr x k
