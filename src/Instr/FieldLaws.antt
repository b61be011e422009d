-- ===== src/Instr/FieldLaws.antt =====
-- The immediates of the base formats, against the tables of the RISC-V base ISA.
use symex_vp.Common.{
  ℕ, ◌≡◌, ◌<◌, ◌+◌, ◌-◌, ◌*◌, ◌/◌, ◌%◌, ◌^◌, arith, and_field, or_high_low, sext32,
}
use symex_vp.Instr.Fields.{i_imm, s_imm, b_imm, u_imm, j_imm}

i_imm-sext : (i : ℕ) → i < 2 ^ 32 → i_imm i ≡ sext32 12 (i / 2 ^ 20)
unfolding i_imm
i_imm-sext i h = ground (arith, and_field 20 12 i)

s_imm-sext : (i : ℕ) → i < 2 ^ 32 → s_imm i ≡ sext32 12 (i / 2 ^ 25 * 2 ^ 5 + i / 2 ^ 7 % 2 ^ 5)
unfolding s_imm
s_imm-sext i h = ground (
  arith,
  and_field 25 7 i,
  and_field 7 5 i,
  or_high_low 5 (i / 2 ^ 25 % 2 ^ 7) (i / 2 ^ 7 % 2 ^ 5),
  or_high_low 5 (i / 2 ^ 25 % 2 ^ 7 + (2 ^ 27 - 2 ^ 7)) (i / 2 ^ 7 % 2 ^ 5),
)

u_imm-sext : (i : ℕ) → i < 2 ^ 32 → u_imm i ≡ i / 2 ^ 12 * 2 ^ 12
unfolding u_imm
u_imm-sext i h = omega (arith, and_field 12 20 i)

-- The bits 12, 11, 10 to 5 and 4 to 1 of a branch offset, as the word holds them.
abbrev pub branch_bits : ℕ → ℕ
branch_bits i =
    i / 2 ^ 31 * 2 ^ 12
    + i / 2 ^ 7 % 2 * 2 ^ 11
    + i / 2 ^ 25 % 2 ^ 6 * 2 ^ 5
    + i / 2 ^ 8 % 2 ^ 4 * 2

b_imm-sext : (i : ℕ) → i < 2 ^ 32 → b_imm i ≡ sext32 13 (branch_bits i)
unfolding b_imm
b_imm-sext i h = ground (
  arith,
  and_field 31 1 i,
  and_field 7 1 i,
  and_field 25 6 i,
  and_field 8 4 i,
  or_high_low 12 (i / 2 ^ 31 * (2 ^ 20 - 1)) (i / 2 ^ 7 % 2 * 2 ^ 11),
  or_high_low 11 (i / 2 ^ 31 * (2 ^ 21 - 2) + i / 2 ^ 7 % 2) (i / 2 ^ 25 % 2 ^ 6 * 2 ^ 5),
  or_high_low 5 (i / 2 ^ 31 * (2 ^ 27 - 128) + i / 2 ^ 7 % 2 * 2 ^ 6 + i / 2 ^ 25 % 2 ^ 6)
      (i / 2 ^ 8 % 2 ^ 4 * 2),
)

-- The bits 20, 19 to 12, 11 and 10 to 1 of a jump offset, as the word holds them.
abbrev pub jump_bits : ℕ → ℕ
jump_bits i =
    i / 2 ^ 31 * 2 ^ 20
    + i / 2 ^ 12 % 2 ^ 8 * 2 ^ 12
    + i / 2 ^ 20 % 2 * 2 ^ 11
    + i / 2 ^ 21 % 2 ^ 10 * 2

j_imm-sext : (i : ℕ) → i < 2 ^ 32 → j_imm i ≡ sext32 21 (jump_bits i)
unfolding j_imm
j_imm-sext i h = ground (
  arith,
  and_field 31 1 i,
  and_field 12 8 i,
  and_field 20 1 i,
  and_field 21 10 i,
  or_high_low 20 (i / 2 ^ 31 * (2 ^ 12 - 1)) (i / 2 ^ 12 % 2 ^ 8 * 2 ^ 12),
  or_high_low 12 (i / 2 ^ 31 * (2 ^ 20 - 2 ^ 8) + i / 2 ^ 12 % 2 ^ 8) (i / 2 ^ 20 % 2 * 2 ^ 11),
  or_high_low 11 (i / 2 ^ 31 * (2 ^ 21 - 2 ^ 9) + i / 2 ^ 12 % 2 ^ 8 * 2 + i / 2 ^ 20 % 2)
      (i / 2 ^ 21 % 2 ^ 10 * 2),
)

-- The five immediates of a 32-bit word are those of the base ISA: the I, S, B and J immediates sign
-- extended from 12, 12, 13 and 21 bits, and the U immediate in the upper 20 bits.
pub immediates_lem :
    (i : ℕ)
    → i < 2 ^ 32
    → (i_imm i ≡ sext32 12 (i / 2 ^ 20))
      × (s_imm i ≡ sext32 12 (i / 2 ^ 25 * 2 ^ 5 + i / 2 ^ 7 % 2 ^ 5))
      × (b_imm i ≡ sext32 13 (branch_bits i))
      × (u_imm i ≡ i / 2 ^ 12 * 2 ^ 12)
      × (j_imm i ≡ sext32 21 (jump_bits i))
immediates_lem i h =
    (i_imm-sext i h, s_imm-sext i h, b_imm-sext i h, u_imm-sext i h, j_imm-sext i h)
