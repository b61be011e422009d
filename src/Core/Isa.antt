-- ===== src/Core/Isa.antt =====
-- The integer instructions and the M extension of RV32 as functions on words, from the unprivileged
-- architecture: the description that vp/src/core/rv32/iss.cpp is compared with.
use symex_vp.Common.{
  ℕ, ◌+◌, ◌-◌, ◌*◌, ◌/◌, ◌%◌, ◌^◌, Bool, ltb, ◌==◌, ◌&&◌, if◌then◌else◌, bit_and, bit_or, bit_xor,
  add32, sub32, sext32, u32, Option, none, some,
}
use symex_vp.Instr.Mapping.{
  Mapping, addi, slti, sltiu, xori, ori, andi, slli, srli, srai, add, sub, sll, slt, sltu, xor, srl,
  sra, or, and, lui, auipc, mul, mulh, mulhu, mulhsu, div, divu, rem, remu,
}
use symex_vp.Core.Semantics.{
  flag_of, signed_less, shifted_signed, signed_quotient, signed_remainder, is_negative,
}

-- The I and U immediates and the shift amount of a word.
abbrev pub i_field : ℕ → ℕ
i_field i = sext32 12 (i / 2 ^ 20)

abbrev pub u_field : ℕ → ℕ
u_field i = i / 2 ^ 12 * 2 ^ 12

abbrev pub shift_field : ℕ → ℕ
shift_field i = i / 2 ^ 20 % 2 ^ 6

-- The result of an instruction with the word `i` at the address `pc`, for the operands `x` and `y`.
unfoldable pub isa : Mapping → ℕ → ℕ → ℕ → ℕ → Option ℕ
isa addi i pc x y = some (add32 x (i_field i))
isa slti i pc x y = some (flag_of (signed_less 32 x (i_field i)))
isa sltiu i pc x y = some (flag_of (ltb x (i_field i)))
isa xori i pc x y = some (bit_xor x (i_field i))
isa ori i pc x y = some (bit_or x (i_field i))
isa andi i pc x y = some (bit_and x (i_field i))
isa add i pc x y = some (add32 x y)
isa sub i pc x y = some (sub32 x y)
isa sll i pc x y = some (u32 (x * 2 ^ (y % 2 ^ 5)))
isa slt i pc x y = some (flag_of (signed_less 32 x y))
isa sltu i pc x y = some (flag_of (ltb x y))
isa srl i pc x y = some (x / 2 ^ (y % 2 ^ 5))
isa sra i pc x y = some (shifted_signed 32 x (y % 2 ^ 5))
isa xor i pc x y = some (bit_xor x y)
isa or i pc x y = some (bit_or x y)
isa and i pc x y = some (bit_and x y)
isa slli i pc x y = some (u32 (x * 2 ^ shift_field i))
isa srli i pc x y = some (x / 2 ^ shift_field i)
isa srai i pc x y = some (shifted_signed 32 x (shift_field i))
isa lui i pc x y = some (u_field i)
isa auipc i pc x y = some (add32 pc (u_field i))
isa op i pc x y = none

-- The upper word of a product, less the words by which a negative operand differs from its pattern.
abbrev pub upper_product : Bool → Bool → ℕ → ℕ → ℕ
upper_product signed_x signed_y x y = u32 (
    x * y / 2 ^ 32
    + 2 ^ 33
    - (if signed_x && is_negative 32 x then y else 0)
    - (if signed_y && is_negative 32 y then x else 0))

-- The most negative number divided by -1.
abbrev pub overflows : ℕ → ℕ → Bool
overflows x y = (x == 2 ^ 31) && (y == 2 ^ 32 - 1)

unfoldable pub isa_m : Mapping → ℕ → ℕ → Option ℕ
isa_m mul x y = some (u32 (x * y))
isa_m mulh x y = some (upper_product Bool.true Bool.true x y)
isa_m mulhsu x y = some (upper_product Bool.true Bool.false x y)
isa_m mulhu x y = some (upper_product Bool.false Bool.false x y)
isa_m div x y =
    some (if y == 0 then 2 ^ 32 - 1 else if overflows x y then x else signed_quotient 32 x y)
isa_m divu x y = some (if y == 0 then 2 ^ 32 - 1 else x / y)
isa_m rem x y = some (if y == 0 then x else if overflows x y then 0 else signed_remainder 32 x y)
isa_m remu x y = some (if y == 0 then x else x % y)
isa_m op x y = none
