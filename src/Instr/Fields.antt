-- ===== src/Instr/Fields.antt =====
-- The fields of an instruction word: the `BIT_*` macros and the members of `struct Instruction` in
-- vp/src/core/common/instr.h. The word, an `int32_t` there, is its bit pattern; where the source
-- relies on the sign of the word, the shift is `sar32`.
use symex_vp.Common.{ℕ, ◌+◌, ◌-◌, ◌*◌, ◌^◌, bit_and, bit_or, Bool, ltb, shl32, shr, sar32}

unfoldable pub bit_range : ℕ → ℕ → ℕ → ℕ
bit_range instr upper lower = bit_and instr ((2 ^ (upper - lower + 1) - 1) * 2 ^ lower)

unfoldable pub bit_slice : ℕ → ℕ → ℕ → ℕ
unfolding bit_range
bit_slice instr upper lower = shr (bit_range instr upper lower) lower

unfoldable pub bit_single : ℕ → ℕ → ℕ
bit_single instr pos = bit_and instr (1 * 2 ^ pos)

unfoldable pub bit_single_p1 : ℕ → ℕ → ℕ
unfolding bit_single
bit_single_p1 instr pos = shr (bit_single instr pos) pos

unfoldable pub bit_single_pn : ℕ → ℕ → ℕ → ℕ
unfolding bit_single
bit_single_pn instr pos new_pos = shl32 (shr (bit_single instr pos) pos) new_pos

unfoldable pub extract_sign_bit : ℕ → ℕ → ℕ → ℕ
unfolding bit_single_p1
extract_sign_bit instr pos new_pos = sar32 (shl32 (bit_single_p1 instr pos) 31) (31 - new_pos)

unfoldable pub quadrant : ℕ → ℕ
quadrant instr = bit_and instr 0x3

unfoldable pub is_compressed : ℕ → Bool
unfolding quadrant
is_compressed instr = ltb (quadrant instr) 3

unfoldable pub c_format : ℕ → ℕ
c_format instr = bit_and instr 0xffff

unfoldable pub c_opcode : ℕ → ℕ
unfolding bit_slice
c_opcode instr = bit_slice instr 15 13

unfoldable pub c_b12 : ℕ → ℕ
unfolding bit_single_p1
c_b12 instr = bit_single_p1 instr 12

unfoldable pub rd : ℕ → ℕ
unfolding bit_range
rd instr = shr (bit_range instr 11 7) 7

unfoldable pub c_rd : ℕ → ℕ
unfolding rd
c_rd instr = rd instr

unfoldable pub c_rd_small : ℕ → ℕ
unfolding bit_slice
c_rd_small instr = bit_or (bit_slice instr 9 7) 8

unfoldable pub c_rs2_small : ℕ → ℕ
unfolding bit_slice
c_rs2_small instr = bit_or (bit_slice instr 4 2) 8

unfoldable pub c_rs2 : ℕ → ℕ
unfolding bit_slice
c_rs2 instr = bit_slice instr 6 2

unfoldable pub c_imm : ℕ → ℕ
unfolding bit_slice extract_sign_bit
c_imm instr = bit_or (bit_slice instr 6 2) (extract_sign_bit instr 12 5)

unfoldable pub c_uimm : ℕ → ℕ
unfolding bit_slice bit_single_p1
c_uimm instr = bit_or (bit_slice instr 6 2) (shl32 (bit_single_p1 instr 12) 5)

unfoldable pub c_f2_high : ℕ → ℕ
unfolding bit_slice
c_f2_high instr = bit_slice instr 11 10

unfoldable pub c_f2_low : ℕ → ℕ
unfolding bit_slice
c_f2_low instr = bit_slice instr 6 5

unfoldable pub csr : ℕ → ℕ
unfolding bit_range
csr instr = shr (bit_range instr 31 20) 20

unfoldable pub zimm : ℕ → ℕ
unfolding bit_range
zimm instr = shr (bit_range instr 19 15) 15

unfoldable pub shamt : ℕ → ℕ
unfolding bit_range
shamt instr = shr (bit_range instr 25 20) 20

unfoldable pub funct2 : ℕ → ℕ
unfolding bit_range
funct2 instr = shr (bit_range instr 26 25) 25

unfoldable pub funct3 : ℕ → ℕ
unfolding bit_range
funct3 instr = shr (bit_range instr 14 12) 12

unfoldable pub funct12 : ℕ → ℕ
unfolding bit_range
funct12 instr = shr (bit_range instr 31 20) 20

unfoldable pub funct7 : ℕ → ℕ
unfolding bit_range
funct7 instr = shr (bit_range instr 31 25) 25

unfoldable pub funct6 : ℕ → ℕ
unfolding bit_range
funct6 instr = shr (bit_range instr 31 26) 26

unfoldable pub funct5 : ℕ → ℕ
unfolding bit_range
funct5 instr = shr (bit_range instr 31 27) 27

unfoldable pub opcode : ℕ → ℕ
unfolding bit_range
opcode instr = bit_range instr 6 0

unfoldable pub j_imm : ℕ → ℕ
unfolding bit_single bit_range
j_imm instr =
    bit_or
      (bit_or (bit_or (sar32 (bit_single instr 31) 11) (bit_range instr 19 12))
        (shr (bit_single instr 20) 9))
      (shr (bit_range instr 30 21) 20)

unfoldable pub i_imm : ℕ → ℕ
unfolding bit_range
i_imm instr = sar32 (bit_range instr 31 20) 20

unfoldable pub s_imm : ℕ → ℕ
unfolding bit_range
s_imm instr = bit_or (sar32 (bit_range instr 31 25) 20) (shr (bit_range instr 11 7) 7)

unfoldable pub b_imm : ℕ → ℕ
unfolding bit_single bit_range
b_imm instr =
    bit_or
      (bit_or (bit_or (sar32 (bit_single instr 31) 19) (shl32 (bit_single instr 7) 4))
        (shr (bit_range instr 30 25) 20))
      (shr (bit_range instr 11 8) 7)

unfoldable pub u_imm : ℕ → ℕ
unfolding bit_range
u_imm instr = bit_range instr 31 12

unfoldable pub rs1 : ℕ → ℕ
unfolding bit_range
rs1 instr = shr (bit_range instr 19 15) 15

unfoldable pub rs2 : ℕ → ℕ
unfolding bit_range
rs2 instr = shr (bit_range instr 24 20) 20

unfoldable pub rs3 : ℕ → ℕ
unfolding bit_range
rs3 instr = shr (bit_range instr 31 27) 27
