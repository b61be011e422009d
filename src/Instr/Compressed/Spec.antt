-- ===== src/Instr/Compressed/Spec.antt =====
-- What the compressed instructions mean, from the tables of the RISC-V C extension: the operands of
-- the instruction that each stands for, in the order in which its format has them.
use symex_vp.Common.{
  ℕ, ◌+◌, ◌-◌, ◌*◌, ◌/◌, ◌%◌, ◌^◌, List, [], ◌∷◌, sext32, Bool, ◌==◌, ◌&&◌, ◌||◌, ltb,
}
use symex_vp.Instr.Mapping.{Mapping}
use symex_vp.Instr.Format.{
  Format, get_type, unknown, r_type, i_type, s_type, b_type, u_type, j_type, r4_type,
}
use symex_vp.Instr.Fields.{rd, rs1, rs2, i_imm, s_imm, b_imm, u_imm, j_imm}
use symex_vp.Instr.Compressed.Decode.{
  CompressedOpcode, c_addi4spn, c_fld, c_lw, c_flw, c_fsd, c_sw, c_fsw, c_nop, c_addi, c_jal, c_li,
  c_addi16sp, c_lui, c_srli, c_srai, c_andi, c_sub, c_xor, c_or, c_and, c_j, c_beqz, c_bnez, c_slli,
  c_fldsp, c_lwsp, c_flwsp, c_jr, c_mv, c_jalr, c_add, c_fsdsp, c_swsp, c_fswsp, c_subw, c_addw,
}

-- The bits `hi` to `lo`.
abbrev at : ℕ → ℕ → ℕ → ℕ
at c hi lo = c / 2 ^ lo % 2 ^ (hi - lo + 1)

-- The register of a three-bit field from bit `lo` on.
abbrev small : ℕ → ℕ → ℕ
small c lo = 8 + at c (lo + 2) lo

abbrev full : ℕ → ℕ
full c = at c 11 7

abbrev ci : ℕ → ℕ
ci c = sext32 6 (at c 12 12 * 32 + at c 6 2)

abbrev jump : ℕ → ℕ
jump c = sext32 12 (
    at c 12 12 * 2048
    + at c 8 8 * 1024
    + at c 10 9 * 256
    + at c 6 6 * 128
    + at c 7 7 * 64
    + at c 2 2 * 32
    + at c 11 11 * 16
    + at c 5 3 * 2)

abbrev branch : ℕ → ℕ
branch c =
    sext32 9 (at c 12 12 * 256 + at c 6 5 * 64 + at c 2 2 * 32 + at c 11 10 * 8 + at c 4 3 * 2)

abbrev word_offset : ℕ → ℕ
word_offset c = at c 5 5 * 64 + at c 12 10 * 8 + at c 6 6 * 4

abbrev double_offset : ℕ → ℕ
double_offset c = at c 6 5 * 64 + at c 12 10 * 8

abbrev word_load_sp : ℕ → ℕ
word_load_sp c = at c 3 2 * 64 + at c 12 12 * 32 + at c 6 4 * 4

abbrev double_load_sp : ℕ → ℕ
double_load_sp c = at c 4 2 * 64 + at c 12 12 * 32 + at c 6 5 * 8

abbrev word_store_sp : ℕ → ℕ
word_store_sp c = at c 8 7 * 64 + at c 12 9 * 4

abbrev double_store_sp : ℕ → ℕ
double_store_sp c = at c 9 7 * 64 + at c 12 10 * 8

-- The operands of the instruction that the compressed word `c` stands for on RV32. Not listed are
-- the opcodes without operands and those that RV32 never decodes.
unfoldable pub operands : CompressedOpcode → ℕ → List ℕ
operands c_addi4spn c =
    small c 2 ∷ 2 ∷ (at c 10 7 * 64 + at c 12 11 * 16 + at c 5 5 * 8 + at c 6 6 * 4) ∷ []
operands c_fld c = small c 2 ∷ small c 7 ∷ double_offset c ∷ []
operands c_lw c = small c 2 ∷ small c 7 ∷ word_offset c ∷ []
operands c_flw c = small c 2 ∷ small c 7 ∷ word_offset c ∷ []
operands c_fsd c = small c 7 ∷ small c 2 ∷ double_offset c ∷ []
operands c_sw c = small c 7 ∷ small c 2 ∷ word_offset c ∷ []
operands c_fsw c = small c 7 ∷ small c 2 ∷ word_offset c ∷ []
operands c_nop c = 0 ∷ 0 ∷ 0 ∷ []
operands c_addi c = full c ∷ full c ∷ ci c ∷ []
operands c_jal c = 1 ∷ jump c ∷ []
operands c_li c = full c ∷ 0 ∷ ci c ∷ []
operands c_addi16sp c =
    2
    ∷ 2
    ∷ sext32 10 (at c 12 12 * 512 + at c 4 3 * 128 + at c 5 5 * 64 + at c 2 2 * 32 + at c 6 6 * 16)
    ∷ []
operands c_lui c = full c ∷ sext32 18 (at c 12 12 * 131072 + at c 6 2 * 4096) ∷ []
operands c_srli c = small c 7 ∷ small c 7 ∷ at c 6 2 ∷ []
operands c_srai c = small c 7 ∷ small c 7 ∷ at c 6 2 ∷ []
operands c_andi c = small c 7 ∷ small c 7 ∷ ci c ∷ []
operands c_sub c = small c 7 ∷ small c 7 ∷ small c 2 ∷ []
operands c_xor c = small c 7 ∷ small c 7 ∷ small c 2 ∷ []
operands c_or c = small c 7 ∷ small c 7 ∷ small c 2 ∷ []
operands c_and c = small c 7 ∷ small c 7 ∷ small c 2 ∷ []
operands c_subw c = small c 7 ∷ small c 7 ∷ small c 2 ∷ []
operands c_addw c = small c 7 ∷ small c 7 ∷ small c 2 ∷ []
operands c_j c = 0 ∷ jump c ∷ []
operands c_beqz c = small c 7 ∷ 0 ∷ branch c ∷ []
operands c_bnez c = small c 7 ∷ 0 ∷ branch c ∷ []
operands c_slli c = full c ∷ full c ∷ at c 6 2 ∷ []
operands c_fldsp c = full c ∷ 2 ∷ double_load_sp c ∷ []
operands c_lwsp c = full c ∷ 2 ∷ word_load_sp c ∷ []
operands c_flwsp c = full c ∷ 2 ∷ word_load_sp c ∷ []
operands c_jr c = 0 ∷ full c ∷ 0 ∷ []
operands c_mv c = full c ∷ 0 ∷ at c 6 2 ∷ []
operands c_jalr c = 1 ∷ full c ∷ 0 ∷ []
operands c_add c = full c ∷ full c ∷ at c 6 2 ∷ []
operands c_fsdsp c = 2 ∷ at c 6 2 ∷ double_store_sp c ∷ []
operands c_swsp c = 2 ∷ at c 6 2 ∷ word_store_sp c ∷ []
operands c_fswsp c = 2 ∷ at c 6 2 ∷ word_store_sp c ∷ []
operands _ c = []

-- The words that the decoder is to refuse on RV32: the reserved encodings of the C extension, but
-- for C.SUBW and C.ADDW, which the code expands on RV32 as well.
unfoldable pub reserved : ℕ → Bool
reserved c =
    let quadrant = c % 4 in
    let funct3 = at c 15 13 in
    (quadrant == 0 && funct3 == 0 && at c 12 5 == 0)
    || (quadrant == 0 && funct3 == 4)
    || (quadrant == 1 && funct3 == 3 && at c 12 12 == 0 && at c 6 2 == 0)
    || (quadrant == 1 && funct3 == 4 && ltb (at c 11 10) 2 && at c 12 12 == 1)
    || (quadrant == 1 && funct3 == 4 && at c 12 10 == 7 && ltb 1 (at c 6 5))
    || (quadrant == 2 && funct3 == 0 && at c 12 12 == 1)
    || (quadrant == 2 && funct3 == 2 && full c == 0)
    || (quadrant == 2 && funct3 == 4 && at c 12 12 == 0 && at c 6 2 == 0 && full c == 0)

format_fields : Format → ℕ → List ℕ
format_fields r_type i = rd i ∷ rs1 i ∷ rs2 i ∷ []
format_fields i_type i = rd i ∷ rs1 i ∷ i_imm i ∷ []
format_fields s_type i = rs1 i ∷ rs2 i ∷ s_imm i ∷ []
format_fields b_type i = rs1 i ∷ rs2 i ∷ b_imm i ∷ []
format_fields u_type i = rd i ∷ u_imm i ∷ []
format_fields j_type i = rd i ∷ j_imm i ∷ []
format_fields r4_type i = []
format_fields unknown i = []

-- The operands that an instruction word of this kind holds.
unfoldable pub operand_fields : Mapping → ℕ → List ℕ
unfolding get_type format_fields rd rs1 rs2 i_imm s_imm b_imm u_imm j_imm
operand_fields op i = format_fields (get_type op) i
