-- ===== src/Instr/Decode/Wide.antt =====
-- `Instruction::decode_normal` of vp/src/core/common/instr.cpp: the opcodes of RV64I and A.
use symex_vp.Common.{ℕ, [], ◌∷◌, if◌then◌else◌, ◌==◌}
use symex_vp.Instr.Mapping.{
  Mapping, undef, lr_w, sc_w, amoswap_w, amoadd_w, amoxor_w, amoand_w, amoor_w, amomin_w, amomax_w,
  amominu_w, amomaxu_w, addiw, slliw, srliw, sraiw, addw, subw, sllw, srlw, sraw, mulw, divw, divuw,
  remw, remuw, lr_d, sc_d, amoswap_d, amoadd_d, amoxor_d, amoand_d, amoor_d, amomin_d, amomax_d,
  amominu_d, amomaxu_d,
}
use symex_vp.Instr.Fields.{funct3, funct5, funct7}
use symex_vp.Common.{switch}
use symex_vp.Instr.Match.{match_and_return_instr}

-- `case OP_ADDIW` of `Instruction::decode_normal`.
unfoldable pub decode_addiw : ℕ → Mapping
decode_addiw i =
    switch (funct3 i)
      ((0b000, match_and_return_instr i addiw)
        ∷ (0b001, match_and_return_instr i slliw)
        ∷ (
          0b101,
          (switch (funct7 i)
              ((0b0000000, match_and_return_instr i srliw)
                ∷ (0b0100000, match_and_return_instr i sraiw)
                ∷ [])
              undef),
        )
        ∷ [])
      undef

-- `case OP_ADDW` of `Instruction::decode_normal`.
unfoldable pub decode_addw : ℕ → Mapping
decode_addw i =
    switch (funct7 i)
      ((
        0b0000000,
        (switch (funct3 i)
            ((0b000, match_and_return_instr i addw)
              ∷ (0b001, match_and_return_instr i sllw)
              ∷ (0b101, match_and_return_instr i srlw)
              ∷ [])
            undef),
      )
        ∷ (
          0b0100000,
          (switch (funct3 i)
              ((0b000, match_and_return_instr i subw) ∷ (0b101, match_and_return_instr i sraw) ∷ [])
              undef),
        )
        ∷ (
          0b0000001,
          (switch (funct3 i)
              ((0b000, match_and_return_instr i mulw)
                ∷ (0b100, match_and_return_instr i divw)
                ∷ (0b101, match_and_return_instr i divuw)
                ∷ (0b110, match_and_return_instr i remw)
                ∷ (0b111, match_and_return_instr i remuw)
                ∷ [])
              undef),
        )
        ∷ [])
      undef

-- `case OP_AMO` of `Instruction::decode_normal`.
unfoldable pub decode_amo : ℕ → Mapping
decode_amo i =
    switch (funct5 i)
      ((
        0b00010,
        (if funct3 i == 0b011
            then match_and_return_instr i lr_d
            else match_and_return_instr i lr_w),
      )
        ∷ (
          0b00011,
          (if funct3 i == 0b011
              then match_and_return_instr i sc_d
              else match_and_return_instr i sc_w),
        )
        ∷ (
          0b00001,
          (if funct3 i == 0b011
              then match_and_return_instr i amoswap_d
              else match_and_return_instr i amoswap_w),
        )
        ∷ (
          0b00000,
          (if funct3 i == 0b011
              then match_and_return_instr i amoadd_d
              else match_and_return_instr i amoadd_w),
        )
        ∷ (
          0b00100,
          (if funct3 i == 0b011
              then match_and_return_instr i amoxor_d
              else match_and_return_instr i amoxor_w),
        )
        ∷ (
          0b01100,
          (if funct3 i == 0b011
              then match_and_return_instr i amoand_d
              else match_and_return_instr i amoand_w),
        )
        ∷ (
          0b01000,
          (if funct3 i == 0b011
              then match_and_return_instr i amoor_d
              else match_and_return_instr i amoor_w),
        )
        ∷ (
          0b10000,
          (if funct3 i == 0b011
              then match_and_return_instr i amomin_d
              else match_and_return_instr i amomin_w),
        )
        ∷ (
          0b10100,
          (if funct3 i == 0b011
              then match_and_return_instr i amomax_d
              else match_and_return_instr i amomax_w),
        )
        ∷ (
          0b11000,
          (if funct3 i == 0b011
              then match_and_return_instr i amominu_d
              else match_and_return_instr i amominu_w),
        )
        ∷ (
          0b11100,
          (if funct3 i == 0b011
              then match_and_return_instr i amomaxu_d
              else match_and_return_instr i amomaxu_w),
        )
        ∷ [])
      undef
