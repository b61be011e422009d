-- ===== src/Instr/Decode/Integer.antt =====
-- `Instruction::decode_normal` of vp/src/core/common/instr.cpp: the opcodes of RV32I, Zicsr and M.
use symex_vp.Common.{ℕ, [], ◌∷◌, if◌then◌else◌}
use symex_vp.Instr.Mapping.{
  Mapping, undef, beq, bne, blt, bge, bltu, bgeu, lb, lh, lw, lbu, lhu, sb, sh, sw, addi, slti,
  sltiu, xori, ori, andi, slli, srli, srai, add, sub, sll, slt, sltu, xor, srl, sra, or, and, fence,
  ecall, ebreak, fence_i, csrrw, csrrs, csrrc, csrrwi, csrrsi, csrrci, mul, mulh, mulhsu, mulhu,
  div, divu, rem, remu, lwu, ld, sd, uret, sret, mret, wfi, sfence_vma,
}
use symex_vp.Instr.Fields.{funct12, funct3, funct6, funct7}
use symex_vp.Common.{switch}
use symex_vp.Instr.Match.{
  match_and_return_instr, match_and_return_instr2, Architecture, is_rv32, slli_32_mask,
  slli_32_encoding, srli_32_mask, srli_32_encoding, srai_32_mask, srai_32_encoding,
}

-- `case OP_BEQ` of `Instruction::decode_normal`.
unfoldable pub decode_beq : ℕ → Mapping
decode_beq i =
    switch (funct3 i)
      ((0b000, match_and_return_instr i beq)
        ∷ (0b001, match_and_return_instr i bne)
        ∷ (0b100, match_and_return_instr i blt)
        ∷ (0b101, match_and_return_instr i bge)
        ∷ (0b110, match_and_return_instr i bltu)
        ∷ (0b111, match_and_return_instr i bgeu)
        ∷ [])
      undef

-- `case OP_LB` of `Instruction::decode_normal`.
unfoldable pub decode_lb : ℕ → Mapping
decode_lb i =
    switch (funct3 i)
      ((0b000, match_and_return_instr i lb)
        ∷ (0b001, match_and_return_instr i lh)
        ∷ (0b010, match_and_return_instr i lw)
        ∷ (0b100, match_and_return_instr i lbu)
        ∷ (0b101, match_and_return_instr i lhu)
        ∷ (0b110, match_and_return_instr i lwu)
        ∷ (0b011, match_and_return_instr i ld)
        ∷ [])
      undef

-- `case OP_SB` of `Instruction::decode_normal`.
unfoldable pub decode_sb : ℕ → Mapping
decode_sb i =
    switch (funct3 i)
      ((0b000, match_and_return_instr i sb)
        ∷ (0b001, match_and_return_instr i sh)
        ∷ (0b010, match_and_return_instr i sw)
        ∷ (0b011, match_and_return_instr i sd)
        ∷ [])
      undef

-- `case OP_ADDI` of `Instruction::decode_normal`.
unfoldable pub decode_addi : Architecture → ℕ → Mapping
decode_addi arch i =
    switch (funct3 i)
      ((0b000, match_and_return_instr i addi)
        ∷ (0b010, match_and_return_instr i slti)
        ∷ (0b011, match_and_return_instr i sltiu)
        ∷ (0b100, match_and_return_instr i xori)
        ∷ (0b110, match_and_return_instr i ori)
        ∷ (0b111, match_and_return_instr i andi)
        ∷ (
          0b001,
          (if is_rv32 arch
              then match_and_return_instr2 i slli_32_mask slli_32_encoding slli
              else match_and_return_instr i slli),
        )
        ∷ (
          0b101,
          (switch (funct6 i)
              ((
                0b000000,
                (if is_rv32 arch
                    then match_and_return_instr2 i srli_32_mask srli_32_encoding srli
                    else match_and_return_instr i srli),
              )
                ∷ (
                  0b010000,
                  (if is_rv32 arch
                      then match_and_return_instr2 i srai_32_mask srai_32_encoding srai
                      else match_and_return_instr i srai),
                )
                ∷ [])
              undef),
        )
        ∷ [])
      undef

-- `case OP_ADD` of `Instruction::decode_normal`.
unfoldable pub decode_add : ℕ → Mapping
decode_add i =
    switch (funct7 i)
      ((
        0b0000000,
        (switch (funct3 i)
            ((0b000, match_and_return_instr i add)
              ∷ (0b001, match_and_return_instr i sll)
              ∷ (0b010, match_and_return_instr i slt)
              ∷ (0b011, match_and_return_instr i sltu)
              ∷ (0b100, match_and_return_instr i xor)
              ∷ (0b101, match_and_return_instr i srl)
              ∷ (0b110, match_and_return_instr i or)
              ∷ (0b111, match_and_return_instr i and)
              ∷ [])
            undef),
      )
        ∷ (
          0b0100000,
          (switch (funct3 i)
              ((0b000, match_and_return_instr i sub) ∷ (0b101, match_and_return_instr i sra) ∷ [])
              undef),
        )
        ∷ (
          0b0000001,
          (switch (funct3 i)
              ((0b000, match_and_return_instr i mul)
                ∷ (0b001, match_and_return_instr i mulh)
                ∷ (0b010, match_and_return_instr i mulhsu)
                ∷ (0b011, match_and_return_instr i mulhu)
                ∷ (0b100, match_and_return_instr i div)
                ∷ (0b101, match_and_return_instr i divu)
                ∷ (0b110, match_and_return_instr i rem)
                ∷ (0b111, match_and_return_instr i remu)
                ∷ [])
              undef),
        )
        ∷ [])
      undef

-- `case OP_FENCE` of `Instruction::decode_normal`.
unfoldable pub decode_fence : ℕ → Mapping
decode_fence i =
    switch (funct3 i)
      ((0b000, match_and_return_instr i fence) ∷ (0b001, match_and_return_instr i fence_i) ∷ [])
      undef

-- `case OP_ECALL` of `Instruction::decode_normal`.
unfoldable pub decode_ecall : ℕ → Mapping
decode_ecall i =
    switch (funct3 i)
      ((
        0b000,
        (switch (funct12 i)
            ((0b000000000000, match_and_return_instr i ecall)
              ∷ (0b000000000001, match_and_return_instr i ebreak)
              ∷ (0b000000000010, match_and_return_instr i uret)
              ∷ (0b000100000010, match_and_return_instr i sret)
              ∷ (0b001100000010, match_and_return_instr i mret)
              ∷ (0b000100000101, match_and_return_instr i wfi)
              ∷ [])
            (match_and_return_instr i sfence_vma)),
      )
        ∷ (0b001, match_and_return_instr i csrrw)
        ∷ (0b010, match_and_return_instr i csrrs)
        ∷ (0b011, match_and_return_instr i csrrc)
        ∷ (0b101, match_and_return_instr i csrrwi)
        ∷ (0b110, match_and_return_instr i csrrsi)
        ∷ (0b111, match_and_return_instr i csrrci)
        ∷ [])
      undef
