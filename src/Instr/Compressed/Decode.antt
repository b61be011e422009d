-- ===== src/Instr/Compressed/Decode.antt =====
-- `enum Compressed::Opcode` and `decode_compressed` of vp/src/core/common/instr.cpp.
use symex_vp.Common.{ℕ, [], ◌∷◌, Option, none, some, ◌==◌, if◌then◌else◌, truth}
use symex_vp.Common.{switch}
use symex_vp.Instr.Match.{Architecture, is_rv32}
use symex_vp.Instr.Fields.{quadrant, c_opcode, c_format, c_rd, c_rs2, c_b12, c_f2_high, c_f2_low}

pub data CompressedOpcode : Type 0 where
  c_illegal c_reserved c_addi4spn c_fld c_lq c_lw c_flw c_ld c_fsd c_sq c_sw c_fsw :
      CompressedOpcode
  c_sd c_nop c_addi c_jal c_addiw c_li c_addi16sp c_lui c_srli c_srai c_andi c_sub :
      CompressedOpcode
  c_xor c_or c_and c_subw c_addw c_j c_beqz c_bnez c_slli c_fldsp c_lqsp c_lwsp : CompressedOpcode
  c_flwsp c_ldsp c_jr c_mv c_ebreak c_jalr c_add c_fsdsp c_sqsp c_swsp c_fswsp : CompressedOpcode
  c_sdsp : CompressedOpcode

-- `case 0` to `case 2` of the switch over the quadrant.
unfoldable pub decode_quadrant0 : Architecture → ℕ → CompressedOpcode
unfolding switch c_opcode c_format
decode_quadrant0 arch instr =
    switch (c_opcode instr)
      ((0b000, (if c_format instr == 0 then c_illegal else c_addi4spn))
        ∷ (0b001, c_fld)
        ∷ (0b010, c_lw)
        ∷ (0b011, (if is_rv32 arch then c_flw else c_ld))
        ∷ (0b100, c_reserved)
        ∷ (0b101, c_fsd)
        ∷ (0b110, c_sw)
        ∷ (0b111, (if is_rv32 arch then c_fsw else c_sd))
        ∷ [])
      c_illegal

-- `case 0b100` of quadrant 1.
unfoldable pub decode_arithmetic : ℕ → CompressedOpcode
unfolding switch c_f2_high c_f2_low c_b12
decode_arithmetic instr =
    switch (c_f2_high instr)
      ((0b00, c_srli)
        ∷ (0b01, c_srai)
        ∷ (0b10, c_andi)
        ∷ (
          0b11,
          (if truth (c_b12 instr)
              then switch (c_f2_low instr) ((0b00, c_subw) ∷ (0b01, c_addw) ∷ []) c_reserved
              else switch (c_f2_low instr)
                  ((0b00, c_sub) ∷ (0b01, c_xor) ∷ (0b10, c_or) ∷ (0b11, c_and) ∷ []) c_illegal),
        )
        ∷ [])
      c_illegal

unfoldable pub decode_quadrant1 : Architecture → ℕ → CompressedOpcode
unfolding switch c_opcode c_format c_rd decode_arithmetic
decode_quadrant1 arch instr =
    switch (c_opcode instr)
      ((0b000, (if c_format instr == 1 then c_nop else c_addi))
        ∷ (0b001, (if is_rv32 arch then c_jal else c_addiw))
        ∷ (0b010, c_li)
        ∷ (0b011, (if c_rd instr == 2 then c_addi16sp else c_lui))
        ∷ (0b100, decode_arithmetic instr)
        ∷ (0b101, c_j)
        ∷ (0b110, c_beqz)
        ∷ (0b111, c_bnez)
        ∷ [])
      c_illegal

-- `case 0b100` of quadrant 2.
unfoldable pub decode_jump_or_add : ℕ → CompressedOpcode
unfolding c_b12 c_rd c_rs2
decode_jump_or_add instr =
    if truth (c_b12 instr)
    then if truth (c_rd instr) then if truth (c_rs2 instr) then c_add else c_jalr else c_ebreak
    else if truth (c_rs2 instr)
    then c_mv
    else c_jr

unfoldable pub decode_quadrant2 : Architecture → ℕ → CompressedOpcode
unfolding switch c_opcode decode_jump_or_add
decode_quadrant2 arch instr =
    switch (c_opcode instr)
      ((0b000, c_slli)
        ∷ (0b001, c_fldsp)
        ∷ (0b010, c_lwsp)
        ∷ (0b011, (if is_rv32 arch then c_flwsp else c_ldsp))
        ∷ (0b100, decode_jump_or_add instr)
        ∷ (0b101, c_fsdsp)
        ∷ (0b110, c_swsp)
        ∷ (0b111, (if is_rv32 arch then c_fswsp else c_sdsp))
        ∷ [])
      c_illegal

-- `none` is the exception that is thrown for an uncompressed word.
unfoldable pub decode_compressed : Architecture → ℕ → Option CompressedOpcode
unfolding switch quadrant decode_quadrant0 decode_quadrant1 decode_quadrant2
decode_compressed arch instr =
    switch (quadrant instr)
      ((0, some (decode_quadrant0 arch instr))
        ∷ (1, some (decode_quadrant1 arch instr))
        ∷ (2, some (decode_quadrant2 arch instr))
        ∷ (3, none)
        ∷ [])
      (some c_illegal)
