-- ===== src/Instr/Compressed/Listing.antt =====
-- The listing of the RISC-V C extension for RV32: the bits that tell each instruction, and the base
-- instruction that it stands for.
use symex_vp.Common.{ℕ, ◌%◌, bit_and, ◌==◌, ◌&&◌, not, Bool, if◌then◌else◌, List, [], ◌∷◌}
use symex_vp.Instr.Mapping.{
  Mapping, undef, add, addi, addw, and, andi, beq, bne, ebreak, fld, flw, fsd, fsw, jal, jalr, lui,
  lw, or, slli, srai, srli, sub, subw, sw, xor,
}
use symex_vp.Instr.Compressed.Decode.{
  CompressedOpcode, c_illegal, c_add, c_addi, c_addi16sp, c_addi4spn, c_addw, c_and, c_andi, c_beqz,
  c_bnez, c_ebreak, c_fld, c_fldsp, c_flw, c_flwsp, c_fsd, c_fsdsp, c_fsw, c_fswsp, c_j, c_jal,
  c_jalr, c_jr, c_li, c_lui, c_lw, c_lwsp, c_mv, c_nop, c_or, c_slli, c_srai, c_srli, c_sub, c_subw,
  c_sw, c_swsp, c_xor,
}

-- The first row with a mask, the bits under it and an instruction that fits; a special case stands
-- before the general one.
first_match : ℕ → List (ℕ × ℕ × CompressedOpcode) → CompressedOpcode
first_match c [] = c_illegal
first_match c ((mask, bits, c_op) ∷ rows) =
    if bit_and c mask == bits then c_op else first_match c rows

quadrant0 : List (ℕ × ℕ × CompressedOpcode)
quadrant0 =
    (0xe003, 0x0000, c_addi4spn)
    ∷ (0xe003, 0x2000, c_fld)
    ∷ (0xe003, 0x4000, c_lw)
    ∷ (0xe003, 0x6000, c_flw)
    ∷ (0xe003, 0xa000, c_fsd)
    ∷ (0xe003, 0xc000, c_sw)
    ∷ (0xe003, 0xe000, c_fsw)
    ∷ []

quadrant1 : List (ℕ × ℕ × CompressedOpcode)
quadrant1 =
    (0xffff, 0x0001, c_nop)
    ∷ (0xe003, 0x0001, c_addi)
    ∷ (0xe003, 0x2001, c_jal)
    ∷ (0xe003, 0x4001, c_li)
    ∷ (0xef83, 0x6101, c_addi16sp)
    ∷ (0xe003, 0x6001, c_lui)
    ∷ (0xec03, 0x8001, c_srli)
    ∷ (0xec03, 0x8401, c_srai)
    ∷ (0xec03, 0x8801, c_andi)
    ∷ (0xfc63, 0x8c01, c_sub)
    ∷ (0xfc63, 0x8c21, c_xor)
    ∷ (0xfc63, 0x8c41, c_or)
    ∷ (0xfc63, 0x8c61, c_and)
    ∷ (0xfc63, 0x9c01, c_subw)
    ∷ (0xfc63, 0x9c21, c_addw)
    ∷ (0xe003, 0xa001, c_j)
    ∷ (0xe003, 0xc001, c_beqz)
    ∷ (0xe003, 0xe001, c_bnez)
    ∷ []

quadrant2 : List (ℕ × ℕ × CompressedOpcode)
quadrant2 =
    (0xe003, 0x0002, c_slli)
    ∷ (0xe003, 0x2002, c_fldsp)
    ∷ (0xe003, 0x4002, c_lwsp)
    ∷ (0xe003, 0x6002, c_flwsp)
    ∷ (0xffff, 0x9002, c_ebreak)
    ∷ (0xf07f, 0x9002, c_jalr)
    ∷ (0xf003, 0x9002, c_add)
    ∷ (0xf07f, 0x8002, c_jr)
    ∷ (0xf003, 0x8002, c_mv)
    ∷ (0xe003, 0xa002, c_fsdsp)
    ∷ (0xe003, 0xc002, c_swsp)
    ∷ (0xe003, 0xe002, c_fswsp)
    ∷ []

-- The instruction that the listing has for the compressed word `c`.
unfoldable pub listed : ℕ → CompressedOpcode
unfolding first_match quadrant0 quadrant1 quadrant2
listed c =
    if c % 4 == 0
    then first_match c quadrant0
    else (if c % 4 == 1 then first_match c quadrant1 else first_match c quadrant2)

-- C.NOP stands for `add x0, x0, x0` here, which does as little as the `addi` of the extension.
unfoldable pub base_instruction : CompressedOpcode → Mapping
base_instruction c_addi4spn = addi
base_instruction c_fld = fld
base_instruction c_lw = lw
base_instruction c_flw = flw
base_instruction c_fsd = fsd
base_instruction c_sw = sw
base_instruction c_fsw = fsw
base_instruction c_nop = add
base_instruction c_addi = addi
base_instruction c_jal = jal
base_instruction c_li = addi
base_instruction c_addi16sp = addi
base_instruction c_lui = lui
base_instruction c_srli = srli
base_instruction c_srai = srai
base_instruction c_andi = andi
base_instruction c_sub = sub
base_instruction c_xor = xor
base_instruction c_or = or
base_instruction c_and = and
base_instruction c_subw = subw
base_instruction c_addw = addw
base_instruction c_j = jal
base_instruction c_beqz = beq
base_instruction c_bnez = bne
base_instruction c_slli = slli
base_instruction c_fldsp = fld
base_instruction c_lwsp = lw
base_instruction c_flwsp = flw
base_instruction c_ebreak = ebreak
base_instruction c_jalr = jalr
base_instruction c_add = add
base_instruction c_jr = jalr
base_instruction c_mv = add
base_instruction c_fsdsp = fsd
base_instruction c_swsp = sw
base_instruction c_fswsp = fsw
base_instruction _ = undef

-- C.ADD with the destination x0 and a source other than x0, which is a hint.
unfoldable pub is_add_hint : ℕ → Bool
is_add_hint c = bit_and c 0xff83 == 0x9002 && not (bit_and c 0x007c == 0)
