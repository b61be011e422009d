-- ===== src/Instr/Examples.antt =====
-- The theorems on instruction words at concrete words, and tests of the decoder.
use symex_vp.Common.{ℕ, ◌≡◌, refl, ◌↔◌, some, ◌+◌, ◌*◌, ◌/◌, ◌%◌, ◌^◌, bit_and, sext32, arith}
use symex_vp.Instr.Mapping.{Mapping, undef, sub, slli}
use symex_vp.Instr.Encoding.{encoding}
use symex_vp.Instr.Match.{rv32, rv64}
use symex_vp.Instr.Fields.{is_compressed, i_imm, s_imm, b_imm, u_imm, j_imm}
use symex_vp.Instr.FieldLaws.{branch_bits, jump_bits, immediates_lem}
use symex_vp.Instr.Decode.{decode_normal, decoder}
use symex_vp.Instr.DecodeLaws.Table.{arch_mask}
use symex_vp.Instr.DecodeLaws.Complete.{decode_normal_iff}
use symex_vp.Instr.Compressed.Decode.{CompressedOpcode, decode_compressed}
use symex_vp.Instr.Compressed.Expand.{decode_and_expand_compressed}
use symex_vp.Instr.Compressed.Low.{half}
use symex_vp.Instr.Compressed.Sound.{IsExpansion, decode_and_expand-IsExpansion}

-- sub a0, a0, a1
sub_decoded : decode_normal rv32 0x40b50533 ≡ sub
unfolding decoder
sub_decoded = refl

-- slli a0, a0, 32 is an instruction of RV64 only.
slli_by_32 : (decode_normal rv32 0x02051513 ≡ undef) × (decode_normal rv64 0x02051513 ≡ slli)
unfolding decoder
slli_by_32 = (refl, refl)

decode_normal_iff_example :
    (decode_normal rv32 0x40b50533 ≡ sub) ↔ (bit_and 0x40b50533 (arch_mask rv32 sub) ≡ encoding sub)
decode_normal_iff_example = decode_normal_iff rv32 sub 0x40b50533 (λ e. cc)

-- jal x0, -4
immediates_lem_example :
    (i_imm 0xffdff06f ≡ sext32 12 (0xffdff06f / 2 ^ 20))
    × (s_imm 0xffdff06f ≡ sext32 12 (0xffdff06f / 2 ^ 25 * 2 ^ 5 + 0xffdff06f / 2 ^ 7 % 2 ^ 5))
    × (b_imm 0xffdff06f ≡ sext32 13 (branch_bits 0xffdff06f))
    × (u_imm 0xffdff06f ≡ 0xffdff06f / 2 ^ 12 * 2 ^ 12)
    × (j_imm 0xffdff06f ≡ sext32 21 (jump_bits 0xffdff06f))
immediates_lem_example = immediates_lem 0xffdff06f (omega arith)

-- c.addi a0, 1 below an uncompressed word's first half
decode_and_expand-IsExpansion_example :
    (c_op : CompressedOpcode) × (r : Mapping × ℕ) × (decode_compressed rv32 0x05130505 ≡ some c_op)
    × (decode_and_expand_compressed rv32 0x05130505 ≡ some r)
    × IsExpansion (half 0x05130505) r
unfolding is_compressed
decode_and_expand-IsExpansion_example = decode_and_expand-IsExpansion 0x05130505 refl
