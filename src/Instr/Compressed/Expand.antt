-- ===== src/Instr/Compressed/Expand.antt =====
-- `expand_compressed` and `decode_and_expand_compressed` of vp/src/core/common/instr.cpp. The
-- result is the instruction and the word that replaces `instr`; where the source returns `UNDEF`
-- the word stays.
use symex_vp.Common.{ℕ, Option, none, some, ltb, ◌==◌, ◌&&◌, if◌then◌else◌}
use symex_vp.Instr.Mapping.{
  Mapping, add, addi, addiw, addw, and, andi, beq, bne, ebreak, fld, flw, fsd, fsw, jal, jalr, ld,
  lui, lw, or, sd, slli, srai, srli, sub, subw, sw, undef, xor,
}
use symex_vp.Instr.Fields.{c_imm, c_rd, c_rd_small, c_rs2, c_rs2_small, c_uimm}
use symex_vp.Instr.Match.{Architecture, is_rv32}
use symex_vp.Instr.Compressed.Immediates.{
  c_addi16sp_nzimm, c_addi4spn_nzuimm, c_branch_imm, c_j_imm, c_jal_imm, c_ld_uimm, c_ldsp_uimm,
  c_lui_nzimm, c_lw_uimm, c_lwsp_uimm, c_sd_uimm, c_sdsp_uimm, c_sw_uimm, c_swsp_uimm,
}
use symex_vp.Instr.Compressed.Factory.{
  make_add, make_addi, make_addw, make_and, make_andi, make_beq, make_bne, make_ebreak, make_fld,
  make_flw, make_fsd, make_fsw, make_jal, make_jalr, make_ld, make_lui, make_lw, make_or, make_sd,
  make_slli, make_srai, make_srli, make_sub, make_subw, make_sw, make_xor,
}
use symex_vp.Instr.Compressed.Decode.{
  CompressedOpcode, decode_compressed, c_illegal, c_reserved, c_addi4spn, c_fld, c_lq, c_lw, c_flw,
  c_ld, c_fsd, c_sq, c_sw, c_fsw, c_sd, c_nop, c_addi, c_jal, c_addiw, c_li, c_addi16sp, c_lui,
  c_srli, c_srai, c_andi, c_sub, c_xor, c_or, c_and, c_subw, c_addw, c_j, c_beqz, c_bnez, c_slli,
  c_fldsp, c_lqsp, c_lwsp, c_flwsp, c_ldsp, c_jr, c_mv, c_ebreak, c_jalr, c_add, c_fsdsp, c_sqsp,
  c_swsp, c_fswsp, c_sdsp,
}

unfoldable pub expand_compressed : Architecture → CompressedOpcode → ℕ → Mapping × ℕ
expand_compressed arch c_illegal instr = (undef, instr)
expand_compressed arch c_reserved instr = (undef, instr)
expand_compressed arch c_addi4spn instr =
    let n = c_addi4spn_nzuimm instr in
    if n == 0 then (undef, instr) else (addi, make_addi (c_rs2_small instr) 2 n)
expand_compressed arch c_fld instr =
    (fld, make_fld (c_rs2_small instr) (c_rd_small instr) (c_ld_uimm instr))
expand_compressed arch c_lq instr = (undef, instr)
expand_compressed arch c_lw instr =
    (lw, make_lw (c_rs2_small instr) (c_rd_small instr) (c_lw_uimm instr))
expand_compressed arch c_flw instr =
    (flw, make_flw (c_rs2_small instr) (c_rd_small instr) (c_lw_uimm instr))
expand_compressed arch c_ld instr =
    (ld, make_ld (c_rs2_small instr) (c_rd_small instr) (c_ld_uimm instr))
expand_compressed arch c_fsd instr =
    (fsd, make_fsd (c_rd_small instr) (c_rs2_small instr) (c_sd_uimm instr))
expand_compressed arch c_sq instr = (undef, instr)
expand_compressed arch c_sw instr =
    (sw, make_sw (c_rd_small instr) (c_rs2_small instr) (c_sw_uimm instr))
expand_compressed arch c_fsw instr =
    (fsw, make_fsw (c_rd_small instr) (c_rs2_small instr) (c_sw_uimm instr))
expand_compressed arch c_sd instr =
    (sd, make_sd (c_rd_small instr) (c_rs2_small instr) (c_sd_uimm instr))
expand_compressed arch c_nop instr = (add, make_add 0 0 0)
expand_compressed arch c_addi instr = (addi, make_addi (c_rd instr) (c_rd instr) (c_imm instr))
expand_compressed arch c_jal instr = (jal, make_jal 1 (c_jal_imm instr))
expand_compressed arch c_addiw instr =
    if c_rd instr == 0
    then (undef, instr)
    else (addiw, make_addi (c_rd instr) (c_rd instr) (c_imm instr))
expand_compressed arch c_li instr = (addi, make_addi (c_rd instr) 0 (c_imm instr))
expand_compressed arch c_addi16sp instr =
    let n = c_addi16sp_nzimm instr in if n == 0 then (undef, instr) else (addi, make_addi 2 2 n)
expand_compressed arch c_lui instr =
    let n = c_lui_nzimm instr in if n == 0 then (undef, instr) else (lui, make_lui (c_rd instr) n)
expand_compressed arch c_srli instr =
    let n = c_uimm instr in
    if is_rv32 arch && ltb 31 n
    then (undef, instr)
    else (srli, make_srli (c_rd_small instr) (c_rd_small instr) n)
expand_compressed arch c_srai instr =
    let n = c_uimm instr in
    if is_rv32 arch && ltb 31 n
    then (undef, instr)
    else (srai, make_srai (c_rd_small instr) (c_rd_small instr) n)
expand_compressed arch c_andi instr =
    (andi, make_andi (c_rd_small instr) (c_rd_small instr) (c_imm instr))
expand_compressed arch c_sub instr =
    (sub, make_sub (c_rd_small instr) (c_rd_small instr) (c_rs2_small instr))
expand_compressed arch c_xor instr =
    (xor, make_xor (c_rd_small instr) (c_rd_small instr) (c_rs2_small instr))
expand_compressed arch c_or instr =
    (or, make_or (c_rd_small instr) (c_rd_small instr) (c_rs2_small instr))
expand_compressed arch c_and instr =
    (and, make_and (c_rd_small instr) (c_rd_small instr) (c_rs2_small instr))
expand_compressed arch c_subw instr =
    (subw, make_subw (c_rd_small instr) (c_rd_small instr) (c_rs2_small instr))
expand_compressed arch c_addw instr =
    (addw, make_addw (c_rd_small instr) (c_rd_small instr) (c_rs2_small instr))
expand_compressed arch c_j instr = (jal, make_jal 0 (c_j_imm instr))
expand_compressed arch c_beqz instr = (beq, make_beq (c_rd_small instr) 0 (c_branch_imm instr))
expand_compressed arch c_bnez instr = (bne, make_bne (c_rd_small instr) 0 (c_branch_imm instr))
expand_compressed arch c_slli instr =
    let n = c_uimm instr in
    if is_rv32 arch && ltb 31 n
    then (undef, instr)
    else (slli, make_slli (c_rd instr) (c_rd instr) n)
expand_compressed arch c_fldsp instr = (fld, make_fld (c_rd instr) 2 (c_ldsp_uimm instr))
expand_compressed arch c_lqsp instr = (undef, instr)
expand_compressed arch c_lwsp instr =
    if c_rd instr == 0 then (undef, instr) else (lw, make_lw (c_rd instr) 2 (c_lwsp_uimm instr))
expand_compressed arch c_flwsp instr = (flw, make_flw (c_rd instr) 2 (c_lwsp_uimm instr))
expand_compressed arch c_ldsp instr =
    if c_rd instr == 0 then (undef, instr) else (ld, make_ld (c_rd instr) 2 (c_ldsp_uimm instr))
expand_compressed arch c_jr instr =
    if c_rd instr == 0 then (undef, instr) else (jalr, make_jalr 0 (c_rd instr) 0)
expand_compressed arch c_mv instr = (add, make_add (c_rd instr) 0 (c_rs2 instr))
expand_compressed arch c_ebreak instr = (ebreak, make_ebreak)
expand_compressed arch c_jalr instr = (jalr, make_jalr 1 (c_rd instr) 0)
expand_compressed arch c_add instr = (add, make_add (c_rd instr) (c_rd instr) (c_rs2 instr))
expand_compressed arch c_fsdsp instr = (fsd, make_fsd 2 (c_rs2 instr) (c_sdsp_uimm instr))
expand_compressed arch c_sqsp instr = (undef, instr)
expand_compressed arch c_swsp instr = (sw, make_sw 2 (c_rs2 instr) (c_swsp_uimm instr))
expand_compressed arch c_fswsp instr = (fsw, make_fsw 2 (c_rs2 instr) (c_swsp_uimm instr))
expand_compressed arch c_sdsp instr = (sd, make_sd 2 (c_rs2 instr) (c_sdsp_uimm instr))

-- `none` is the exception of `decode_compressed`.
unfoldable pub decode_and_expand_compressed : Architecture → ℕ → Option (Mapping × ℕ)
decode_and_expand_compressed arch instr = elim (decode_compressed arch instr) [
  | none ↦ none
  | some c_op ↦ some (expand_compressed arch c_op instr)
]
