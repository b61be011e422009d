-- ===== src/Instr/DecodeLaws/Complete.antt =====
-- The flat table of masks and encodings against the nested switches of `decode_normal`: what
-- matches the table is what the decoder returns.
use symex_vp.Common.{
  ℕ, ◌≡◌, refl, ap, ◌≢◌, ◌↔◌, inl, inr, bit_and, arith, and_narrow, and_field, ◌/◌, ◌^◌,
}
use symex_vp.Instr.Mapping.{Mapping, undef, slli, srli, srai, sfence_vma}
use symex_vp.Instr.Encoding.{encoding}
use symex_vp.Instr.Match.{Architecture}
use symex_vp.Instr.Fields.{opcode, funct2, funct3, funct5, funct6, funct7, funct12, rs2}
use symex_vp.Instr.Decode.{decode_normal, decoder}
use symex_vp.Instr.DecodeLaws.Table.{arch_mask, decode_normal-Fits}

module _ (arch : Architecture) (m : Mapping) (i : ℕ)
    (h : bit_and i (arch_mask arch m) ≡ encoding m) where
  -- The mask fixes all bits of the field `n`.
  abbrev Covers : ℕ → Type 0
  Covers n = bit_and (arch_mask arch m) n ≡ n

  opcode_known : Covers 0x7f → opcode i ≡ opcode (encoding m)
  unfolding opcode
  opcode_known c = and_narrow i (arch_mask arch m) 0x7f (encoding m) h c

  funct2_known : Covers 0x06000000 → funct2 i ≡ funct2 (encoding m)
  unfolding funct2
  funct2_known c =
      ap (λ t. t / 2 ^ 25) (and_narrow i (arch_mask arch m) 0x06000000 (encoding m) h c)

  funct3_known : Covers 0x00007000 → funct3 i ≡ funct3 (encoding m)
  unfolding funct3
  funct3_known c =
      ap (λ t. t / 2 ^ 12) (and_narrow i (arch_mask arch m) 0x00007000 (encoding m) h c)

  funct5_known : Covers 0xf8000000 → funct5 i ≡ funct5 (encoding m)
  unfolding funct5
  funct5_known c =
      ap (λ t. t / 2 ^ 27) (and_narrow i (arch_mask arch m) 0xf8000000 (encoding m) h c)

  funct6_known : Covers 0xfc000000 → funct6 i ≡ funct6 (encoding m)
  unfolding funct6
  funct6_known c =
      ap (λ t. t / 2 ^ 26) (and_narrow i (arch_mask arch m) 0xfc000000 (encoding m) h c)

  funct7_known : Covers 0xfe000000 → funct7 i ≡ funct7 (encoding m)
  unfolding funct7
  funct7_known c =
      ap (λ t. t / 2 ^ 25) (and_narrow i (arch_mask arch m) 0xfe000000 (encoding m) h c)

  funct12_known : Covers 0xfff00000 → funct12 i ≡ funct12 (encoding m)
  unfolding funct12
  funct12_known c =
      ap (λ t. t / 2 ^ 20) (and_narrow i (arch_mask arch m) 0xfff00000 (encoding m) h c)

  rs2_known : Covers 0x01f00000 → rs2 i ≡ rs2 (encoding m)
  unfolding rs2
  rs2_known c = ap (λ t. t / 2 ^ 20) (and_narrow i (arch_mask arch m) 0x01f00000 (encoding m) h c)

-- `funct7` is the upper part of `funct12`.
funct12-funct7 : (i : ℕ) → funct12 i / 2 ^ 5 ≡ funct7 i
unfolding funct12 funct7
funct12-funct7 i = omega (arith, and_field 20 12 i, and_field 25 7 i)

decode_normal_complete :
    (arch : Architecture) (m : Mapping) (i : ℕ)
    → m ≢ undef
    → bit_and i (arch_mask arch m) ≡ encoding m
    → decode_normal arch i ≡ m
unfolding decoder
decode_normal_complete arch undef i ne h = absurd (ne refl)
decode_normal_complete arch slli i ne h =
    ground
      (arith, opcode_known arch slli i h, funct3_known arch slli i h, funct6_known arch slli i h)
decode_normal_complete arch srli i ne h =
    ground
      (arith, opcode_known arch srli i h, funct3_known arch srli i h, funct6_known arch srli i h)
decode_normal_complete arch srai i ne h =
    ground
      (arith, opcode_known arch srai i h, funct3_known arch srai i h, funct6_known arch srai i h)
decode_normal_complete arch sfence_vma i ne h = rw (opcode_known arch sfence_vma i h refl) (
    ground
      (arith, funct3_known arch sfence_vma i h, funct7_known arch sfence_vma i h, funct12-funct7 i))
decode_normal_complete arch m i ne h = rw (opcode_known arch m i h refl) (
    ground (
      arith,
      funct2_known arch m i h,
      funct3_known arch m i h,
      funct5_known arch m i h,
      funct6_known arch m i h,
      funct7_known arch m i h,
      funct12_known arch m i h,
      rs2_known arch m i h,
    ))

-- `decode_normal`, with its nested switches over the fields of the word, returns the instruction
-- `m` exactly when the word agrees with the encoding of `m` under its mask, on each architecture;
-- on RV32 the masks of the immediate shifts also fix bit 25.
pub decode_normal_iff :
    (arch : Architecture) (m : Mapping) (i : ℕ)
    → m ≢ undef
    → (decode_normal arch i ≡ m) ↔ (bit_and i (arch_mask arch m) ≡ encoding m)
decode_normal_iff arch m i ne = (matches, decode_normal_complete arch m i ne)
  where
    matches : decode_normal arch i ≡ m → bit_and i (arch_mask arch m) ≡ encoding m
    matches e = elim (rw e at (decode_normal-Fits arch i)) [
      | inl none_found ↦ absurd (ne none_found)
      | inr fits ↦ fits
    ]
