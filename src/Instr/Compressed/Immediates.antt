-- ===== src/Instr/Compressed/Immediates.antt =====
-- The immediates of the compressed instructions, the functions `C_*` of
-- vp/src/core/common/instr.cpp.
use symex_vp.Common.{ℕ, ◌|||◌, ◌<<<◌}
use symex_vp.Instr.Fields.{bit_slice, bit_single_p1, bit_single_pn, extract_sign_bit}

unfoldable pub c_addi4spn_nzuimm : ℕ → ℕ
unfolding bit_slice bit_single_p1
c_addi4spn_nzuimm n =
    ((bit_slice n 12 11) <<< 4)
    ||| ((bit_slice n 10 7) <<< 6)
    ||| ((bit_single_p1 n 6) <<< 2)
    ||| ((bit_single_p1 n 5) <<< 3)

unfoldable pub c_lw_uimm : ℕ → ℕ
unfolding bit_slice bit_single_p1
c_lw_uimm n =
    ((bit_slice n 12 10) <<< 3) ||| ((bit_single_p1 n 6) <<< 2) ||| ((bit_single_p1 n 5) <<< 6)

unfoldable pub c_ld_uimm : ℕ → ℕ
unfolding bit_slice
c_ld_uimm n = ((bit_slice n 12 10) <<< 3) ||| ((bit_slice n 6 5) <<< 6)

unfoldable pub c_sw_uimm : ℕ → ℕ
unfolding c_lw_uimm
c_sw_uimm n = (c_lw_uimm n)

unfoldable pub c_sd_uimm : ℕ → ℕ
unfolding c_ld_uimm
c_sd_uimm n = (c_ld_uimm n)

unfoldable pub c_jal_imm : ℕ → ℕ
unfolding bit_slice bit_single_pn extract_sign_bit
c_jal_imm n =
    (extract_sign_bit n 12 11)
    ||| (bit_single_pn n 11 4)
    ||| ((bit_slice n 10 9) <<< 8)
    ||| (bit_single_pn n 8 10)
    ||| (bit_single_pn n 7 6)
    ||| (bit_single_pn n 6 7)
    ||| ((bit_slice n 5 3) <<< 1)
    ||| (bit_single_pn n 2 5)

unfoldable pub c_addi16sp_nzimm : ℕ → ℕ
unfolding bit_slice bit_single_pn extract_sign_bit
c_addi16sp_nzimm n =
    (extract_sign_bit n 12 9)
    ||| (bit_single_pn n 6 4)
    ||| (bit_single_pn n 5 6)
    ||| ((bit_slice n 4 3) <<< 7)
    ||| (bit_single_pn n 2 5)

unfoldable pub c_lui_nzimm : ℕ → ℕ
unfolding bit_slice extract_sign_bit
c_lui_nzimm n = (extract_sign_bit n 12 17) ||| ((bit_slice n 6 2) <<< 12)

unfoldable pub c_j_imm : ℕ → ℕ
unfolding c_jal_imm
c_j_imm n = (c_jal_imm n)

unfoldable pub c_branch_imm : ℕ → ℕ
unfolding bit_slice bit_single_pn extract_sign_bit
c_branch_imm n =
    (extract_sign_bit n 12 8)
    ||| ((bit_slice n 11 10) <<< 3)
    ||| ((bit_slice n 6 5) <<< 6)
    ||| ((bit_slice n 4 3) <<< 1)
    ||| (bit_single_pn n 2 5)

unfoldable pub c_lwsp_uimm : ℕ → ℕ
unfolding bit_slice bit_single_pn
c_lwsp_uimm n = (bit_single_pn n 12 5) ||| ((bit_slice n 6 4) <<< 2) ||| ((bit_slice n 3 2) <<< 6)

unfoldable pub c_swsp_uimm : ℕ → ℕ
unfolding bit_slice
c_swsp_uimm n = ((bit_slice n 12 9) <<< 2) ||| ((bit_slice n 8 7) <<< 6)

unfoldable pub c_ldsp_uimm : ℕ → ℕ
unfolding bit_slice bit_single_pn
c_ldsp_uimm n = (bit_single_pn n 12 5) ||| ((bit_slice n 6 5) <<< 3) ||| ((bit_slice n 4 2) <<< 6)

unfoldable pub c_sdsp_uimm : ℕ → ℕ
unfolding bit_slice
c_sdsp_uimm n = ((bit_slice n 12 10) <<< 3) ||| ((bit_slice n 9 7) <<< 6)
