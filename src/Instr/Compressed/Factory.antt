-- ===== src/Instr/Compressed/Factory.antt =====
-- `struct InstructionFactory` of vp/src/core/common/instr.cpp: assembling instruction words.
use symex_vp.Common.{ℕ, ◌&&&◌, ◌|||◌, ◌<<<◌, ◌>>>◌}

unfoldable pub make_add : ℕ → ℕ → ℕ → ℕ
make_add rd rs1 rs2 =
    ((rd &&& 0x1f) <<< 7)
    ||| ((rs1 &&& 0x1f) <<< 15)
    ||| ((rs2 &&& 0x1f) <<< 20)
    ||| 51
    ||| (0 <<< 12)
    ||| (0 <<< 25)

unfoldable pub make_and : ℕ → ℕ → ℕ → ℕ
make_and rd rs1 rs2 =
    ((rd &&& 0x1f) <<< 7)
    ||| ((rs1 &&& 0x1f) <<< 15)
    ||| ((rs2 &&& 0x1f) <<< 20)
    ||| 51
    ||| (7 <<< 12)
    ||| (0 <<< 25)

unfoldable pub make_or : ℕ → ℕ → ℕ → ℕ
make_or rd rs1 rs2 =
    ((rd &&& 0x1f) <<< 7)
    ||| ((rs1 &&& 0x1f) <<< 15)
    ||| ((rs2 &&& 0x1f) <<< 20)
    ||| 51
    ||| (6 <<< 12)
    ||| (0 <<< 25)

unfoldable pub make_xor : ℕ → ℕ → ℕ → ℕ
make_xor rd rs1 rs2 =
    ((rd &&& 0x1f) <<< 7)
    ||| ((rs1 &&& 0x1f) <<< 15)
    ||| ((rs2 &&& 0x1f) <<< 20)
    ||| 51
    ||| (4 <<< 12)
    ||| (0 <<< 25)

unfoldable pub make_sub : ℕ → ℕ → ℕ → ℕ
make_sub rd rs1 rs2 =
    ((rd &&& 0x1f) <<< 7)
    ||| ((rs1 &&& 0x1f) <<< 15)
    ||| ((rs2 &&& 0x1f) <<< 20)
    ||| 51
    ||| (0 <<< 12)
    ||| (32 <<< 25)

unfoldable pub make_lw : ℕ → ℕ → ℕ → ℕ
make_lw rd rs1 i_imm =
    ((i_imm &&& 4095) <<< 20)
    ||| ((rd &&& 0x1f) <<< 7)
    ||| ((rs1 &&& 0x1f) <<< 15)
    ||| 3
    ||| (2 <<< 12)

unfoldable pub make_ld : ℕ → ℕ → ℕ → ℕ
make_ld rd rs1 i_imm =
    ((i_imm &&& 4095) <<< 20)
    ||| ((rd &&& 0x1f) <<< 7)
    ||| ((rs1 &&& 0x1f) <<< 15)
    ||| 3
    ||| (3 <<< 12)

unfoldable pub make_flw : ℕ → ℕ → ℕ → ℕ
make_flw rd rs1 i_imm =
    ((i_imm &&& 4095) <<< 20)
    ||| ((rd &&& 0x1f) <<< 7)
    ||| ((rs1 &&& 0x1f) <<< 15)
    ||| 7
    ||| (2 <<< 12)

unfoldable pub make_fld : ℕ → ℕ → ℕ → ℕ
make_fld rd rs1 i_imm =
    ((i_imm &&& 4095) <<< 20)
    ||| ((rd &&& 0x1f) <<< 7)
    ||| ((rs1 &&& 0x1f) <<< 15)
    ||| 7
    ||| (3 <<< 12)

unfoldable pub make_sw : ℕ → ℕ → ℕ → ℕ
make_sw rs1 rs2 s_imm =
    (((s_imm &&& 0b11111) <<< 7) ||| ((s_imm &&& (0b1111111 <<< 5)) <<< 20))
    ||| ((rs1 &&& 0x1f) <<< 15)
    ||| ((rs2 &&& 0x1f) <<< 20)
    ||| 35
    ||| (2 <<< 12)

unfoldable pub make_sd : ℕ → ℕ → ℕ → ℕ
make_sd rs1 rs2 s_imm =
    (((s_imm &&& 0b11111) <<< 7) ||| ((s_imm &&& (0b1111111 <<< 5)) <<< 20))
    ||| ((rs1 &&& 0x1f) <<< 15)
    ||| ((rs2 &&& 0x1f) <<< 20)
    ||| 35
    ||| (3 <<< 12)

unfoldable pub make_fsw : ℕ → ℕ → ℕ → ℕ
make_fsw rs1 rs2 s_imm =
    (((s_imm &&& 0b11111) <<< 7) ||| ((s_imm &&& (0b1111111 <<< 5)) <<< 20))
    ||| ((rs1 &&& 0x1f) <<< 15)
    ||| ((rs2 &&& 0x1f) <<< 20)
    ||| 39
    ||| (2 <<< 12)

unfoldable pub make_fsd : ℕ → ℕ → ℕ → ℕ
make_fsd rs1 rs2 s_imm =
    (((s_imm &&& 0b11111) <<< 7) ||| ((s_imm &&& (0b1111111 <<< 5)) <<< 20))
    ||| ((rs1 &&& 0x1f) <<< 15)
    ||| ((rs2 &&& 0x1f) <<< 20)
    ||| 39
    ||| (3 <<< 12)

unfoldable pub make_lui : ℕ → ℕ → ℕ
make_lui rd u_imm = (u_imm &&& (1048575 <<< 12)) ||| ((rd &&& 0x1f) <<< 7) ||| 55

unfoldable pub make_addi : ℕ → ℕ → ℕ → ℕ
make_addi rd rs1 i_imm =
    ((i_imm &&& 4095) <<< 20)
    ||| ((rd &&& 0x1f) <<< 7)
    ||| ((rs1 &&& 0x1f) <<< 15)
    ||| 19
    ||| (0 <<< 12)

unfoldable pub make_andi : ℕ → ℕ → ℕ → ℕ
make_andi rd rs1 i_imm =
    ((i_imm &&& 4095) <<< 20)
    ||| ((rd &&& 0x1f) <<< 7)
    ||| ((rs1 &&& 0x1f) <<< 15)
    ||| 19
    ||| (7 <<< 12)

unfoldable pub make_srli : ℕ → ℕ → ℕ → ℕ
make_srli rd rs1 shamt =
    ((rd &&& 0x1f) <<< 7)
    ||| ((rs1 &&& 0x1f) <<< 15)
    ||| ((shamt &&& 63) <<< 20)
    ||| 19
    ||| (5 <<< 12)
    ||| (0 <<< 25)

unfoldable pub make_srai : ℕ → ℕ → ℕ → ℕ
make_srai rd rs1 shamt =
    ((rd &&& 0x1f) <<< 7)
    ||| ((rs1 &&& 0x1f) <<< 15)
    ||| ((shamt &&& 63) <<< 20)
    ||| 19
    ||| (5 <<< 12)
    ||| (32 <<< 25)

unfoldable pub make_slli : ℕ → ℕ → ℕ → ℕ
make_slli rd rs1 shamt =
    ((rd &&& 0x1f) <<< 7)
    ||| ((rs1 &&& 0x1f) <<< 15)
    ||| ((shamt &&& 63) <<< 20)
    ||| 19
    ||| (1 <<< 12)
    ||| (0 <<< 25)

unfoldable pub make_jal : ℕ → ℕ → ℕ
make_jal rd j_imm =
    111
    ||| ((rd &&& 0x1f) <<< 7)
    ||| ((j_imm &&& (0b11111111 <<< 12))
        ||| ((j_imm &&& (1 <<< 11)) <<< 9)
        ||| ((j_imm &&& 0b11111111110) <<< 20)
        ||| ((j_imm &&& (1 <<< 20)) <<< 11))

unfoldable pub make_jalr : ℕ → ℕ → ℕ → ℕ
make_jalr rd rs1 i_imm =
    ((i_imm &&& 4095) <<< 20)
    ||| ((rd &&& 0x1f) <<< 7)
    ||| ((rs1 &&& 0x1f) <<< 15)
    ||| 103
    ||| (0 <<< 12)

unfoldable pub make_beq : ℕ → ℕ → ℕ → ℕ
make_beq rs1 rs2 b_imm =
    ((((b_imm &&& 0b11110) <<< 7) ||| ((b_imm &&& (1 <<< 11)) >>> 4))
      ||| (((b_imm &&& (0b111111 <<< 5)) <<< 20) ||| ((b_imm &&& (1 <<< 12)) <<< 19)))
    ||| ((rs1 &&& 0x1f) <<< 15)
    ||| ((rs2 &&& 0x1f) <<< 20)
    ||| 99
    ||| (0 <<< 12)

unfoldable pub make_bne : ℕ → ℕ → ℕ → ℕ
make_bne rs1 rs2 b_imm =
    ((((b_imm &&& 0b11110) <<< 7) ||| ((b_imm &&& (1 <<< 11)) >>> 4))
      ||| (((b_imm &&& (0b111111 <<< 5)) <<< 20) ||| ((b_imm &&& (1 <<< 12)) <<< 19)))
    ||| ((rs1 &&& 0x1f) <<< 15)
    ||| ((rs2 &&& 0x1f) <<< 20)
    ||| 99
    ||| (1 <<< 12)

unfoldable pub make_ebreak : ℕ
make_ebreak = 1048691

unfoldable pub make_addiw : ℕ → ℕ → ℕ → ℕ
make_addiw rd rs1 i_imm =
    ((i_imm &&& 4095) <<< 20) ||| ((rd &&& 0x1f) <<< 7) ||| ((rs1 &&& 0x1f) <<< 15) ||| 0x1b

unfoldable pub make_addw : ℕ → ℕ → ℕ → ℕ
make_addw rd rs1 rs2 =
    ((rd &&& 0x1f) <<< 7) ||| ((rs1 &&& 0x1f) <<< 15) ||| ((rs2 &&& 0x1f) <<< 20) ||| 0x3b

unfoldable pub make_subw : ℕ → ℕ → ℕ → ℕ
make_subw rd rs1 rs2 =
    ((rd &&& 0x1f) <<< 7)
    ||| ((rs1 &&& 0x1f) <<< 15)
    ||| ((rs2 &&& 0x1f) <<< 20)
    ||| 0x3b
    ||| 0x40000000
