-- ===== src/Instr/Compressed/Low.antt =====
-- The compressed instruction stands in the low half of the fetched word; the other half, which
-- belongs to the next instruction, changes nothing.
use symex_vp.Common.{ℕ, ◌%◌, ◌^◌, ◌≡◌, refl, ◌⊎◌, inl, true, ltb, ltb→lt, bit_and, and_low, arith}
use symex_vp.Instr.Mapping.{Mapping, undef}
use symex_vp.Instr.Fields.{
  quadrant, c_opcode, c_format, c_b12, c_rd, c_rs2, c_f2_high, c_f2_low, c_rd_small, c_rs2_small,
  c_imm, c_uimm,
}
use symex_vp.Instr.Match.{Architecture}
use symex_vp.Instr.Compressed.Immediates.{
  c_addi4spn_nzuimm, c_lw_uimm, c_ld_uimm, c_sw_uimm, c_sd_uimm, c_jal_imm, c_addi16sp_nzimm,
  c_lui_nzimm, c_j_imm, c_branch_imm, c_lwsp_uimm, c_swsp_uimm, c_ldsp_uimm, c_sdsp_uimm,
}
use symex_vp.Instr.Compressed.Decode.{CompressedOpcode, c_illegal, decode_compressed}
use symex_vp.Instr.Compressed.Expand.{expand_compressed}

abbrev pub half : ℕ → ℕ
half w = w % 2 ^ 16

low : (w m : ℕ) → ltb m 65536 ≡ true → bit_and (half w) m ≡ bit_and w m
low w m h = and_low 16 w m (ltb→lt m 65536 h)

quadrant-half : (w : ℕ) → quadrant (half w) ≡ quadrant w
unfolding quadrant
quadrant-half w = low w 3 refl

c_opcode-half : (w : ℕ) → c_opcode (half w) ≡ c_opcode w
unfolding c_opcode
c_opcode-half w = rw (low w 57344 refl)

c_format-half : (w : ℕ) → c_format (half w) ≡ c_format w
unfolding c_format
c_format-half w = low w 65535 refl

c_b12-half : (w : ℕ) → c_b12 (half w) ≡ c_b12 w
unfolding c_b12
c_b12-half w = rw (low w 4096 refl)

c_rd-half : (w : ℕ) → c_rd (half w) ≡ c_rd w
unfolding c_rd
c_rd-half w = rw (low w 3968 refl)

c_rs2-half : (w : ℕ) → c_rs2 (half w) ≡ c_rs2 w
unfolding c_rs2
c_rs2-half w = rw (low w 124 refl)

c_f2_high-half : (w : ℕ) → c_f2_high (half w) ≡ c_f2_high w
unfolding c_f2_high
c_f2_high-half w = rw (low w 3072 refl)

c_f2_low-half : (w : ℕ) → c_f2_low (half w) ≡ c_f2_low w
unfolding c_f2_low
c_f2_low-half w = rw (low w 96 refl)

c_rd_small-half : (w : ℕ) → c_rd_small (half w) ≡ c_rd_small w
unfolding c_rd_small
c_rd_small-half w = rw (low w 896 refl)

c_rs2_small-half : (w : ℕ) → c_rs2_small (half w) ≡ c_rs2_small w
unfolding c_rs2_small
c_rs2_small-half w = rw (low w 28 refl)

c_imm-half : (w : ℕ) → c_imm (half w) ≡ c_imm w
unfolding c_imm
c_imm-half w = simp (low w 124 refl, low w 4096 refl)

c_uimm-half : (w : ℕ) → c_uimm (half w) ≡ c_uimm w
unfolding c_uimm
c_uimm-half w = simp (low w 124 refl, low w 4096 refl)

c_addi4spn_nzuimm-half : (w : ℕ) → c_addi4spn_nzuimm (half w) ≡ c_addi4spn_nzuimm w
unfolding c_addi4spn_nzuimm
c_addi4spn_nzuimm-half w = simp (low w 6144 refl, low w 1920 refl, low w 64 refl, low w 32 refl)

c_lw_uimm-half : (w : ℕ) → c_lw_uimm (half w) ≡ c_lw_uimm w
unfolding c_lw_uimm
c_lw_uimm-half w = simp (low w 7168 refl, low w 64 refl, low w 32 refl)

c_ld_uimm-half : (w : ℕ) → c_ld_uimm (half w) ≡ c_ld_uimm w
unfolding c_ld_uimm
c_ld_uimm-half w = simp (low w 7168 refl, low w 96 refl)

c_sw_uimm-half : (w : ℕ) → c_sw_uimm (half w) ≡ c_sw_uimm w
unfolding c_sw_uimm
c_sw_uimm-half w = simp (low w 7168 refl, low w 64 refl, low w 32 refl)

c_sd_uimm-half : (w : ℕ) → c_sd_uimm (half w) ≡ c_sd_uimm w
unfolding c_sd_uimm
c_sd_uimm-half w = simp (low w 7168 refl, low w 96 refl)

c_jal_imm-half : (w : ℕ) → c_jal_imm (half w) ≡ c_jal_imm w
unfolding c_jal_imm
c_jal_imm-half w = simp (
  low w 1536 refl,
  low w 56 refl,
  low w 2048 refl,
  low w 256 refl,
  low w 128 refl,
  low w 64 refl,
  low w 4 refl,
  low w 4096 refl,
)

c_addi16sp_nzimm-half : (w : ℕ) → c_addi16sp_nzimm (half w) ≡ c_addi16sp_nzimm w
unfolding c_addi16sp_nzimm
c_addi16sp_nzimm-half w =
    simp (low w 24 refl, low w 64 refl, low w 32 refl, low w 4 refl, low w 4096 refl)

c_lui_nzimm-half : (w : ℕ) → c_lui_nzimm (half w) ≡ c_lui_nzimm w
unfolding c_lui_nzimm
c_lui_nzimm-half w = simp (low w 124 refl, low w 4096 refl)

c_j_imm-half : (w : ℕ) → c_j_imm (half w) ≡ c_j_imm w
unfolding c_j_imm
c_j_imm-half w = simp (
  low w 1536 refl,
  low w 56 refl,
  low w 2048 refl,
  low w 256 refl,
  low w 128 refl,
  low w 64 refl,
  low w 4 refl,
  low w 4096 refl,
)

c_branch_imm-half : (w : ℕ) → c_branch_imm (half w) ≡ c_branch_imm w
unfolding c_branch_imm
c_branch_imm-half w =
    simp (low w 3072 refl, low w 96 refl, low w 24 refl, low w 4 refl, low w 4096 refl)

c_lwsp_uimm-half : (w : ℕ) → c_lwsp_uimm (half w) ≡ c_lwsp_uimm w
unfolding c_lwsp_uimm
c_lwsp_uimm-half w = simp (low w 112 refl, low w 12 refl, low w 4096 refl)

c_swsp_uimm-half : (w : ℕ) → c_swsp_uimm (half w) ≡ c_swsp_uimm w
unfolding c_swsp_uimm
c_swsp_uimm-half w = simp (low w 7680 refl, low w 384 refl)

c_ldsp_uimm-half : (w : ℕ) → c_ldsp_uimm (half w) ≡ c_ldsp_uimm w
unfolding c_ldsp_uimm
c_ldsp_uimm-half w = simp (low w 96 refl, low w 28 refl, low w 4096 refl)

c_sdsp_uimm-half : (w : ℕ) → c_sdsp_uimm (half w) ≡ c_sdsp_uimm w
unfolding c_sdsp_uimm
c_sdsp_uimm-half w = simp (low w 7168 refl, low w 896 refl)

ruleset halves = (
  quadrant-half, c_opcode-half, c_format-half, c_b12-half, c_rd-half, c_rs2-half, c_f2_high-half,
  c_f2_low-half, c_rd_small-half, c_rs2_small-half, c_imm-half, c_uimm-half, c_addi4spn_nzuimm-half,
  c_lw_uimm-half, c_ld_uimm-half, c_sw_uimm-half, c_sd_uimm-half, c_jal_imm-half,
  c_addi16sp_nzimm-half, c_lui_nzimm-half, c_j_imm-half, c_branch_imm-half, c_lwsp_uimm-half,
  c_swsp_uimm-half, c_ldsp_uimm-half, c_sdsp_uimm-half,
)

pub decode_compressed-half :
    (arch : Architecture) (w : ℕ) → decode_compressed arch (half w) ≡ decode_compressed arch w
unfolding decode_compressed
decode_compressed-half arch w = simp halves

abbrev pub Agree : Mapping × ℕ → Mapping × ℕ → Type 0
Agree r s = (r.0 ≡ s.0) × ((r.0 ≡ undef) ⊎ (r.1 ≡ s.1))

-- The expansions of a word and of its low half name the same instruction, and give the same word
-- unless there is no instruction.
pub expand_compressed-half :
    (arch : Architecture) (c_op : CompressedOpcode) (w : ℕ)
    → Agree (expand_compressed arch c_op w) (expand_compressed arch c_op (half w))
unfolding expand_compressed
expand_compressed-half arch c_illegal w = (refl, inl refl)
expand_compressed-half arch _ w = ground (
  arith,
  quadrant-half w,
  c_opcode-half w,
  c_format-half w,
  c_b12-half w,
  c_rd-half w,
  c_rs2-half w,
  c_f2_high-half w,
  c_f2_low-half w,
  c_rd_small-half w,
  c_rs2_small-half w,
  c_imm-half w,
  c_uimm-half w,
  c_addi4spn_nzuimm-half w,
  c_lw_uimm-half w,
  c_ld_uimm-half w,
  c_sw_uimm-half w,
  c_sd_uimm-half w,
  c_jal_imm-half w,
  c_addi16sp_nzimm-half w,
  c_lui_nzimm-half w,
  c_j_imm-half w,
  c_branch_imm-half w,
  c_lwsp_uimm-half w,
  c_swsp_uimm-half w,
  c_ldsp_uimm-half w,
  c_sdsp_uimm-half w,
)
