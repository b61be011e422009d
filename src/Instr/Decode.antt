-- ===== src/Instr/Decode.antt =====
-- `Instruction::decode_normal` of vp/src/core/common/instr.cpp, by opcode.
pub mod Integer
pub mod Wide
pub mod Float
use symex_vp.Common.{ℕ, [], ◌∷◌}
use symex_vp.Instr.Mapping.{Mapping, undef, lui, auipc, jal, jalr}
use symex_vp.Instr.Fields.{opcode, funct2, funct3, funct5, funct6, funct7, funct12, rs2}
use symex_vp.Instr.Mask.{mask}
use symex_vp.Instr.Encoding.{encoding}
use symex_vp.Common.{switch}
use symex_vp.Instr.Match.{match_and_return_instr, match_and_return_instr2, Architecture}
use Integer.{decode_beq, decode_lb, decode_sb, decode_addi, decode_add, decode_fence, decode_ecall}
use Wide.{decode_addiw, decode_addw, decode_amo}
use Float.{
  decode_fmadd_s, decode_fadd_s, decode_flw, decode_fsw, decode_fmsub_s, decode_fnmsub_s,
  decode_fnmadd_s,
}

unfoldable pub decode_normal : Architecture → ℕ → Mapping
decode_normal arch i =
    switch (opcode i)
      ((0b0110111, match_and_return_instr i lui)
        ∷ (0b0010111, match_and_return_instr i auipc)
        ∷ (0b1101111, match_and_return_instr i jal)
        ∷ (0b1100111, match_and_return_instr i jalr)
        ∷ (0b1100011, decode_beq i)
        ∷ (0b0000011, decode_lb i)
        ∷ (0b0100011, decode_sb i)
        ∷ (0b0010011, decode_addi arch i)
        ∷ (0b0011011, decode_addiw i)
        ∷ (0b0110011, decode_add i)
        ∷ (0b0111011, decode_addw i)
        ∷ (0b0001111, decode_fence i)
        ∷ (0b1110011, decode_ecall i)
        ∷ (0b0101111, decode_amo i)
        ∷ (0b1000011, decode_fmadd_s i)
        ∷ (0b1010011, decode_fadd_s i)
        ∷ (0b0000111, decode_flw i)
        ∷ (0b0100111, decode_fsw i)
        ∷ (0b1000111, decode_fmsub_s i)
        ∷ (0b1001011, decode_fnmsub_s i)
        ∷ (0b1001111, decode_fnmadd_s i)
        ∷ [])
      undef

-- Names what an evaluation of the decoder unfolds.
unfoldable pub decoder : Architecture → ℕ → Mapping
unfolding decode_normal switch match_and_return_instr match_and_return_instr2 mask encoding opcode
    funct2 funct3 funct5 funct6 funct7 funct12 rs2 decode_beq decode_lb decode_sb decode_addi
    decode_add decode_fence decode_ecall decode_addiw decode_addw decode_amo decode_fmadd_s
    decode_fadd_s decode_flw decode_fsw decode_fmsub_s decode_fnmsub_s decode_fnmadd_s
decoder arch i = decode_normal arch i
