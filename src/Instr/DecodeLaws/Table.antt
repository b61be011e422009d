-- ===== src/Instr/DecodeLaws/Table.antt =====
-- The nested switches of `decode_normal` against the flat table of masks and encodings: what the
-- decoder returns matches the table.
use symex_vp.Common.{
  ℕ, ◌≡◌, refl, Bool, true, false, List, [], ◌∷◌, ◌⊎◌, inl, bit_and, ◌==◌, ◌&&◌, if◌then◌else◌,
  arith,
}
use symex_vp.Instr.Mapping.{Mapping, undef, slli, srli, srai}
use symex_vp.Instr.Mask.{mask}
use symex_vp.Instr.Encoding.{encoding}
use symex_vp.Common.{switch}
use symex_vp.Instr.Match.{
  match_and_return_instr, match_and_return_instr2, Architecture, is_rv32, slli_32_mask,
  slli_32_encoding, srli_32_mask, srli_32_encoding, srai_32_mask, srai_32_encoding,
}
use symex_vp.Instr.Decode.Integer.{
  decode_addi, decode_beq, decode_lb, decode_sb, decode_add, decode_fence, decode_ecall,
}
use symex_vp.Instr.Decode.Wide.{decode_addiw, decode_addw, decode_amo}
use symex_vp.Instr.Decode.Float.{
  decode_fmadd_s, decode_fadd_s, decode_flw, decode_fsw, decode_fmsub_s, decode_fnmsub_s,
  decode_fnmadd_s,
}
use symex_vp.Instr.Decode.{decode_normal}

abbrev pub is_shift : Mapping → Bool
is_shift slli = true
is_shift srli = true
is_shift srai = true
is_shift _ = false

-- The mask that an architecture matches by: on RV32 an immediate shift has one more fixed bit.
abbrev pub arch_mask : Architecture → Mapping → ℕ
arch_mask arch m = if is_shift m && is_rv32 arch then 0xfe00707f else mask m

module _ (arch : Architecture) (i : ℕ) where
  -- A result of the decoder that agrees with the table.
  abbrev pub Fits : Mapping → Type 0
  Fits m = (m ≡ undef) ⊎ (bit_and i (arch_mask arch m) ≡ encoding m)

  Fits-undef : Fits undef
  Fits-undef = inl refl

  Fits-match : (m : Mapping) → is_shift m ≡ false → Fits (match_and_return_instr i m)
  unfolding match_and_return_instr match_and_return_instr2
  Fits-match m plain = ground arith

  Fits-slli : Fits (
      if is_rv32 arch
      then match_and_return_instr2 i slli_32_mask slli_32_encoding slli
      else match_and_return_instr i slli)
  unfolding match_and_return_instr match_and_return_instr2 encoding
  Fits-slli = ground arith

  Fits-srli : Fits (
      if is_rv32 arch
      then match_and_return_instr2 i srli_32_mask srli_32_encoding srli
      else match_and_return_instr i srli)
  unfolding match_and_return_instr match_and_return_instr2 encoding
  Fits-srli = ground arith

  Fits-srai : Fits (
      if is_rv32 arch
      then match_and_return_instr2 i srai_32_mask srai_32_encoding srai
      else match_and_return_instr i srai)
  unfolding match_and_return_instr match_and_return_instr2 encoding
  Fits-srai = ground arith

  Fits-if : (b : Bool) (m n : Mapping) → Fits m → Fits n → Fits (if b then m else n)
  Fits-if true m n h k = h
  Fits-if false m n h k = k

  data AllFit : List (ℕ × Mapping) → Type 0 where
    no_case : AllFit []
    case_fits :
        {k : ℕ} {r : Mapping} {cases : List (ℕ × Mapping)}
        → Fits r
        → AllFit cases
        → AllFit ((k, r) ∷ cases)

  Fits-switch :
      (x : ℕ) {cases : List (ℕ × Mapping)} (d : Mapping)
      → AllFit cases
      → Fits d
      → Fits (switch x cases d)
  unfolding switch
  Fits-switch x d no_case k = k
  Fits-switch x d (case_fits {k = c} {r} {cases} h hs) k =
      Fits-if (x == c) r (switch x cases d) h (Fits-switch x d hs k)

  ruleset fitting = (
    Fits-slli, Fits-srli, Fits-srai, Fits-match, refl, Fits-undef, case_fits, no_case, Fits-switch,
    Fits-if,
  )

  Fits-decode_beq : Fits (decode_beq i)
  unfolding decode_beq
  Fits-decode_beq = search fitting depth 80 fits 20000

  Fits-decode_lb : Fits (decode_lb i)
  unfolding decode_lb
  Fits-decode_lb = search fitting depth 80 fits 20000

  Fits-decode_sb : Fits (decode_sb i)
  unfolding decode_sb
  Fits-decode_sb = search fitting depth 80 fits 20000

  Fits-decode_add : Fits (decode_add i)
  unfolding decode_add
  Fits-decode_add = search fitting depth 80 fits 20000

  Fits-decode_fence : Fits (decode_fence i)
  unfolding decode_fence
  Fits-decode_fence = search fitting depth 80 fits 20000

  Fits-decode_ecall : Fits (decode_ecall i)
  unfolding decode_ecall
  Fits-decode_ecall = search fitting depth 80 fits 20000

  Fits-decode_addiw : Fits (decode_addiw i)
  unfolding decode_addiw
  Fits-decode_addiw = search fitting depth 80 fits 20000

  Fits-decode_addw : Fits (decode_addw i)
  unfolding decode_addw
  Fits-decode_addw = search fitting depth 80 fits 20000

  Fits-decode_amo : Fits (decode_amo i)
  unfolding decode_amo
  Fits-decode_amo = search fitting depth 80 fits 20000

  Fits-decode_fmadd_s : Fits (decode_fmadd_s i)
  unfolding decode_fmadd_s
  Fits-decode_fmadd_s = search fitting depth 80 fits 20000

  Fits-decode_fadd_s : Fits (decode_fadd_s i)
  unfolding decode_fadd_s
  Fits-decode_fadd_s = search fitting depth 80 fits 20000

  Fits-decode_flw : Fits (decode_flw i)
  unfolding decode_flw
  Fits-decode_flw = search fitting depth 80 fits 20000

  Fits-decode_fsw : Fits (decode_fsw i)
  unfolding decode_fsw
  Fits-decode_fsw = search fitting depth 80 fits 20000

  Fits-decode_fmsub_s : Fits (decode_fmsub_s i)
  unfolding decode_fmsub_s
  Fits-decode_fmsub_s = search fitting depth 80 fits 20000

  Fits-decode_fnmsub_s : Fits (decode_fnmsub_s i)
  unfolding decode_fnmsub_s
  Fits-decode_fnmsub_s = search fitting depth 80 fits 20000

  Fits-decode_fnmadd_s : Fits (decode_fnmadd_s i)
  unfolding decode_fnmadd_s
  Fits-decode_fnmadd_s = search fitting depth 80 fits 20000

  Fits-decode_addi : Fits (decode_addi arch i)
  unfolding decode_addi
  Fits-decode_addi = search fitting depth 80 fits 20000

  ruleset parts = (
    Fits-decode_addi, Fits-decode_beq, Fits-decode_lb, Fits-decode_sb, Fits-decode_add,
    Fits-decode_fence, Fits-decode_ecall, Fits-decode_addiw, Fits-decode_addw, Fits-decode_amo,
    Fits-decode_fmadd_s, Fits-decode_fadd_s, Fits-decode_flw, Fits-decode_fsw, Fits-decode_fmsub_s,
    Fits-decode_fnmsub_s, Fits-decode_fnmadd_s,
  )

  -- The decoder returns no instruction, or one whose mask and encoding the word matches.
  pub decode_normal-Fits : Fits (decode_normal arch i)
  unfolding decode_normal
  decode_normal-Fits = search (parts, fitting) depth 80 fits 20000
