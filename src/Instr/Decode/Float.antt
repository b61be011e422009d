-- ===== src/Instr/Decode/Float.antt =====
-- `Instruction::decode_normal` of vp/src/core/common/instr.cpp: the opcodes of F and D.
use symex_vp.Common.{ℕ, [], ◌∷◌}
use symex_vp.Instr.Mapping.{
  Mapping, undef, flw, fsw, fmadd_s, fmsub_s, fnmadd_s, fnmsub_s, fadd_s, fsub_s, fmul_s, fdiv_s,
  fsqrt_s, fsgnj_s, fsgnjn_s, fsgnjx_s, fmin_s, fmax_s, fcvt_w_s, fcvt_wu_s, fmv_x_w, feq_s, flt_s,
  fle_s, fclass_s, fcvt_s_w, fcvt_s_wu, fmv_w_x, fcvt_l_s, fcvt_lu_s, fcvt_s_l, fcvt_s_lu, fld, fsd,
  fmadd_d, fmsub_d, fnmsub_d, fnmadd_d, fadd_d, fsub_d, fmul_d, fdiv_d, fsqrt_d, fsgnj_d, fsgnjn_d,
  fsgnjx_d, fmin_d, fmax_d, fcvt_s_d, fcvt_d_s, feq_d, flt_d, fle_d, fclass_d, fcvt_w_d, fcvt_wu_d,
  fcvt_d_w, fcvt_d_wu, fcvt_l_d, fcvt_lu_d, fmv_x_d, fcvt_d_l, fcvt_d_lu, fmv_d_x,
}
use symex_vp.Instr.Fields.{funct2, funct3, funct7, rs2}
use symex_vp.Common.{switch}
use symex_vp.Instr.Match.{match_and_return_instr}

-- `case OP_FMADD_S` of `Instruction::decode_normal`.
unfoldable pub decode_fmadd_s : ℕ → Mapping
decode_fmadd_s i =
    switch (funct2 i)
      ((0b00, match_and_return_instr i fmadd_s) ∷ (0b01, match_and_return_instr i fmadd_d) ∷ [])
      undef

-- `case OP_FADD_S` of `Instruction::decode_normal`.
unfoldable pub decode_fadd_s : ℕ → Mapping
decode_fadd_s i =
    switch (funct7 i)
      ((0b0000000, match_and_return_instr i fadd_s)
        ∷ (0b0000001, match_and_return_instr i fadd_d)
        ∷ (0b0000100, match_and_return_instr i fsub_s)
        ∷ (0b0000101, match_and_return_instr i fsub_d)
        ∷ (0b0100001, match_and_return_instr i fcvt_d_s)
        ∷ (0b0001000, match_and_return_instr i fmul_s)
        ∷ (0b0001001, match_and_return_instr i fmul_d)
        ∷ (0b0001100, match_and_return_instr i fdiv_s)
        ∷ (0b0001101, match_and_return_instr i fdiv_d)
        ∷ (
          0b1010000,
          (switch (funct3 i)
              ((0b000, match_and_return_instr i fle_s)
                ∷ (0b001, match_and_return_instr i flt_s)
                ∷ (0b010, match_and_return_instr i feq_s)
                ∷ [])
              undef),
        )
        ∷ (
          0b0010001,
          (switch (funct3 i)
              ((0b000, match_and_return_instr i fsgnj_d)
                ∷ (0b001, match_and_return_instr i fsgnjn_d)
                ∷ (0b010, match_and_return_instr i fsgnjx_d)
                ∷ [])
              undef),
        )
        ∷ (
          0b0010100,
          (switch (funct3 i)
              ((0b000, match_and_return_instr i fmin_s)
                ∷ (0b001, match_and_return_instr i fmax_s)
                ∷ [])
              undef),
        )
        ∷ (
          0b0010101,
          (switch (funct3 i)
              ((0b000, match_and_return_instr i fmin_d)
                ∷ (0b001, match_and_return_instr i fmax_d)
                ∷ [])
              undef),
        )
        ∷ (0b0100000, match_and_return_instr i fcvt_s_d)
        ∷ (
          0b0010000,
          (switch (funct3 i)
              ((0b000, match_and_return_instr i fsgnj_s)
                ∷ (0b001, match_and_return_instr i fsgnjn_s)
                ∷ (0b010, match_and_return_instr i fsgnjx_s)
                ∷ [])
              undef),
        )
        ∷ (
          0b1010001,
          (switch (funct3 i)
              ((0b000, match_and_return_instr i fle_d)
                ∷ (0b001, match_and_return_instr i flt_d)
                ∷ (0b010, match_and_return_instr i feq_d)
                ∷ [])
              undef),
        )
        ∷ (
          0b1101000,
          (switch (rs2 i)
              ((0b00000, match_and_return_instr i fcvt_s_w)
                ∷ (0b00001, match_and_return_instr i fcvt_s_wu)
                ∷ (0b00010, match_and_return_instr i fcvt_s_l)
                ∷ (0b00011, match_and_return_instr i fcvt_s_lu)
                ∷ [])
              undef),
        )
        ∷ (
          0b1101001,
          (switch (rs2 i)
              ((0b00000, match_and_return_instr i fcvt_d_w)
                ∷ (0b00001, match_and_return_instr i fcvt_d_wu)
                ∷ (0b00010, match_and_return_instr i fcvt_d_l)
                ∷ (0b00011, match_and_return_instr i fcvt_d_lu)
                ∷ [])
              undef),
        )
        ∷ (
          0b1100001,
          (switch (rs2 i)
              ((0b00000, match_and_return_instr i fcvt_w_d)
                ∷ (0b00001, match_and_return_instr i fcvt_wu_d)
                ∷ (0b00010, match_and_return_instr i fcvt_l_d)
                ∷ (0b00011, match_and_return_instr i fcvt_lu_d)
                ∷ [])
              undef),
        )
        ∷ (0b0101100, match_and_return_instr i fsqrt_s)
        ∷ (0b0101101, match_and_return_instr i fsqrt_d)
        ∷ (
          0b1100000,
          (switch (rs2 i)
              ((0b00000, match_and_return_instr i fcvt_w_s)
                ∷ (0b00001, match_and_return_instr i fcvt_wu_s)
                ∷ (0b00010, match_and_return_instr i fcvt_l_s)
                ∷ (0b00011, match_and_return_instr i fcvt_lu_s)
                ∷ [])
              undef),
        )
        ∷ (
          0b1110000,
          (switch (funct3 i)
              ((0b000, match_and_return_instr i fmv_x_w)
                ∷ (0b001, match_and_return_instr i fclass_s)
                ∷ [])
              undef),
        )
        ∷ (
          0b1110001,
          (switch (funct3 i)
              ((0b000, match_and_return_instr i fmv_x_d)
                ∷ (0b001, match_and_return_instr i fclass_d)
                ∷ [])
              undef),
        )
        ∷ (0b1111000, match_and_return_instr i fmv_w_x)
        ∷ (0b1111001, match_and_return_instr i fmv_d_x)
        ∷ [])
      undef

-- `case OP_FLW` of `Instruction::decode_normal`.
unfoldable pub decode_flw : ℕ → Mapping
decode_flw i =
    switch (funct3 i)
      ((0b010, match_and_return_instr i flw) ∷ (0b011, match_and_return_instr i fld) ∷ []) undef

-- `case OP_FSW` of `Instruction::decode_normal`.
unfoldable pub decode_fsw : ℕ → Mapping
decode_fsw i =
    switch (funct3 i)
      ((0b010, match_and_return_instr i fsw) ∷ (0b011, match_and_return_instr i fsd) ∷ []) undef

-- `case OP_FMSUB_S` of `Instruction::decode_normal`.
unfoldable pub decode_fmsub_s : ℕ → Mapping
decode_fmsub_s i =
    switch (funct2 i)
      ((0b00, match_and_return_instr i fmsub_s) ∷ (0b01, match_and_return_instr i fmsub_d) ∷ [])
      undef

-- `case OP_FNMSUB_S` of `Instruction::decode_normal`.
unfoldable pub decode_fnmsub_s : ℕ → Mapping
decode_fnmsub_s i =
    switch (funct2 i)
      ((0b00, match_and_return_instr i fnmsub_s) ∷ (0b01, match_and_return_instr i fnmsub_d) ∷ [])
      undef

-- `case OP_FNMADD_S` of `Instruction::decode_normal`.
unfoldable pub decode_fnmadd_s : ℕ → Mapping
decode_fnmadd_s i =
    switch (funct2 i)
      ((0b00, match_and_return_instr i fnmadd_s) ∷ (0b01, match_and_return_instr i fnmadd_d) ∷ [])
      undef
