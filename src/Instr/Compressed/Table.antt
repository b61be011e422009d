-- ===== src/Instr/Compressed/Table.antt =====
-- Every 16-bit compressed instruction, checked by evaluation: its expansion against the decoder of
-- uncompressed words, and its operands against the tables of the C extension.
use symex_vp.Common.{
  ℕ, ◌+◌, ◌*◌, ◌≡◌, refl, Bool, true, false, Option, none, some, List, [], ◌∷◌, ◌==◌, ◌&&◌,
  if◌then◌else◌, not, all_below,
}
use symex_vp.Instr.Mapping.{Mapping, Mapping-discrete, undef, ebreak}
use symex_vp.Instr.Fields.{is_compressed, c_imm, c_rd, c_rd_small, c_rs2, c_rs2_small, c_uimm}
use symex_vp.Instr.Compressed.Immediates.{
  c_addi16sp_nzimm, c_addi4spn_nzuimm, c_branch_imm, c_j_imm, c_jal_imm, c_ld_uimm, c_ldsp_uimm,
  c_lui_nzimm, c_lw_uimm, c_lwsp_uimm, c_sd_uimm, c_sdsp_uimm, c_sw_uimm, c_swsp_uimm,
}
use symex_vp.Instr.Compressed.Factory.{
  make_add, make_addi, make_addw, make_and, make_andi, make_beq, make_bne, make_ebreak, make_fld,
  make_flw, make_fsd, make_fsw, make_jal, make_jalr, make_ld, make_lui, make_lw, make_or, make_sd,
  make_slli, make_srai, make_srli, make_sub, make_subw, make_sw, make_xor,
}
use symex_vp.Instr.Match.{rv32}
use symex_vp.Instr.Decode.{decode_normal, decoder}
use symex_vp.Instr.Compressed.Decode.{CompressedOpcode, decode_compressed}
use symex_vp.Instr.Compressed.Expand.{expand_compressed}
use symex_vp.Instr.Compressed.Listing.{listed, base_instruction, is_add_hint}
use symex_vp.Instr.Compressed.Spec.{operands, reserved, operand_fields}

unfoldable pub same : Mapping → Mapping → Bool
unfolding Mapping-discrete
same a b = elim (Mapping-discrete a b) [ yes _ ↦ true | no _ ↦ false ]

unfoldable pub same_list : List ℕ → List ℕ → Bool
same_list [] [] = true
same_list (x ∷ xs) (y ∷ ys) = x == y && same_list xs ys
same_list _ _ = false

unfoldable pub expands : ℕ → Mapping × ℕ → Bool
expands c (op, i) =
    if reserved c
    then same op undef
    else (if is_add_hint c
        then same op ebreak
        else same op (base_instruction (listed c))
          && not (same op undef)
          && same (decode_normal rv32 i) op
          && not (is_compressed i)
          && same_list (operand_fields op i) (operands (listed c) c))

unfoldable pub decodes : ℕ → Option CompressedOpcode → Bool
unfolding c_imm c_rd c_rd_small c_rs2 c_rs2_small c_uimm c_addi16sp_nzimm c_addi4spn_nzuimm
    c_branch_imm c_j_imm c_jal_imm c_ld_uimm c_ldsp_uimm c_lui_nzimm c_lw_uimm c_lwsp_uimm c_sd_uimm
    c_sdsp_uimm c_sw_uimm c_swsp_uimm make_add make_addi make_addw make_and make_andi make_beq
    make_bne make_ebreak make_fld make_flw make_fsd make_fsw make_jal make_jalr make_ld make_lui
    make_lw make_or make_sd make_slli make_srai make_srli make_sub make_subw make_sw make_xor
decodes c none = false
decodes c (some c_op) = expands c (expand_compressed rv32 c_op c)

-- The word with the quadrant `q` and the upper bits `m`.
unfoldable pub checked : ℕ → ℕ → Bool
checked q m = let c = m * 4 + q in decodes c (decode_compressed rv32 c)

pub quadrant0_table : all_below 16384 (checked 0) ≡ true
unfolding all_below checked decodes expands same same_list decode_compressed expand_compressed
    decoder is_compressed operands reserved operand_fields listed base_instruction is_add_hint
quadrant0_table = refl

pub quadrant1_table : all_below 16384 (checked 1) ≡ true
unfolding all_below checked decodes expands same same_list decode_compressed expand_compressed
    decoder is_compressed operands reserved operand_fields listed base_instruction is_add_hint
quadrant1_table = refl

pub quadrant2_table : all_below 16384 (checked 2) ≡ true
unfolding all_below checked decodes expands same same_list decode_compressed expand_compressed
    decoder is_compressed operands reserved operand_fields listed base_instruction is_add_hint
quadrant2_table = refl
