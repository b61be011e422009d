-- ===== src/Instr/Compressed/Sound.antt =====
-- The expansion of every fetched word with a compressed instruction in its low half.
use symex_vp.Common.{
  ℕ, ◌+◌, ◌*◌, ◌/◌, ◌%◌, ◌^◌, ◌<◌, ◌≡◌, refl, true, false, Option, none, some, List, [], ◌∷◌, ◌≢◌,
  inl, inr, arith, Bool-cases, all_below, in_range, and_mask, sym, ◌∙◌,
}
use mathlib.Core.Bool.{false≢true}
use symex_vp.Instr.Mapping.{Mapping, Mapping-discrete, undef, ebreak}
use symex_vp.Instr.Fields.{is_compressed}
use symex_vp.Instr.Match.{rv32}
use symex_vp.Instr.Decode.{decode_normal}
use symex_vp.Instr.Compressed.Decode.{CompressedOpcode, decode_compressed}
use symex_vp.Instr.Compressed.Expand.{expand_compressed, decode_and_expand_compressed}
use symex_vp.Instr.Compressed.Listing.{listed, base_instruction, is_add_hint}
use symex_vp.Instr.Compressed.Spec.{operands, reserved, operand_fields}
use symex_vp.Instr.Compressed.Low.{half, Agree, decode_compressed-half, expand_compressed-half}
use symex_vp.Instr.Compressed.Table.{
  same, same_list, expands, decodes, checked, quadrant0_table, quadrant1_table, quadrant2_table,
}

same_sound : (a b : Mapping) → same a b ≡ true → a ≡ b
unfolding same
same_sound a b h = go (Mapping-discrete a b) h
  where
    go : (d : Dec (a ≡ b)) → (elim d [ yes _ ↦ true | no _ ↦ false ]) ≡ true → a ≡ b
    go (yes e) h = e
    go (no _) h = cc

same_list_sound : (xs ys : List ℕ) → same_list xs ys ≡ true → xs ≡ ys
unfolding same_list
same_list_sound [] [] h = refl
same_list_sound [] (y ∷ ys) h = cc
same_list_sound (x ∷ xs) [] h = cc
same_list_sound (x ∷ xs) (y ∷ ys) h = ground (arith, same_list_sound xs ys)

-- `r` is the right expansion of the compressed word `c`: none for a reserved word, and otherwise a
-- full-size word of the instruction that the listing of the C extension has for `c`, with its
-- operands, which the decoder of uncompressed words takes for the same instruction. The hints of C.ADD
-- are expanded to EBREAK.
pub data IsExpansion (c : ℕ) (r : Mapping × ℕ) : Type 0 where
  refused : reserved c ≡ true → r.0 ≡ undef → IsExpansion c r
  hinted : is_add_hint c ≡ true → r.0 ≡ ebreak → IsExpansion c r
  expanded :
      reserved c ≡ false
      → r.0 ≡ base_instruction (listed c)
      → r.0 ≢ undef
      → decode_normal rv32 r.1 ≡ r.0
      → is_compressed r.1 ≡ false
      → operand_fields r.0 r.1 ≡ operands (listed c) c
      → IsExpansion c r

same_self : (a : Mapping) → same a a ≡ true
unfolding same
same_self a = go (Mapping-discrete a a)
  where
    go : (d : Dec (a ≡ a)) → (elim d [ yes _ ↦ true | no _ ↦ false ]) ≡ true
    go (yes e) = refl
    go (no ne) = absurd (ne refl)

same-false : (a b : Mapping) → same a b ≡ false → a ≢ b
same-false a b h e = false≢true (sym h ∙ (rw e (same_self b)))

expands_sound : (c : ℕ) (r : Mapping × ℕ) → expands c r ≡ true → IsExpansion c r
unfolding expands
expands_sound c (op, i) h = elim (Bool-cases (reserved c)) [
  | inl e ↦ refused e (same_sound op undef (ground arith))
  | inr e ↦ (elim (Bool-cases (is_add_hint c)) [
    | inl hint ↦ hinted hint (same_sound op ebreak (ground arith))
    | inr other ↦
        expanded e (same_sound op (base_instruction (listed c)) (ground arith))
          (same-false op undef (ground arith)) (same_sound (decode_normal rv32 i) op (ground arith))
          (ground arith) (same_list_sound _ _ (ground arith))
  ])
]

checked_lem : (q m : ℕ) → checked q m ≡ decodes (m * 4 + q) (decode_compressed rv32 (m * 4 + q))
unfolding checked
checked_lem q m = refl

table_entry :
    (q c : ℕ)
    → all_below 16384 (checked q) ≡ true
    → c < 2 ^ 16
    → c % 4 ≡ q
    → decodes c (decode_compressed rv32 c) ≡ true
table_entry q c table lt e =
    let whole : c / 4 * 4 + q ≡ c = omega arith in
    rw whole at (rw checked_lem at (in_range (checked q) (c / 4) 16384 (omega arith) table))

in_table : (c : ℕ) → c < 2 ^ 16 → c % 4 < 3 → decodes c (decode_compressed rv32 c) ≡ true
in_table c lt h = ground (
  arith,
  table_entry 0 c quadrant0_table lt,
  table_entry 1 c quadrant1_table lt,
  table_entry 2 c quadrant2_table lt,
)

decodes_sound :
    (c : ℕ) (o : Option CompressedOpcode)
    → decodes c o ≡ true
    → (c_op : CompressedOpcode) × (o ≡ some c_op) × IsExpansion c (expand_compressed rv32 c_op c)
unfolding decodes
decodes_sound c none h = cc
decodes_sound c (some c_op) h = (c_op, refl, expands_sound c _ h)

IsExpansion-Agree : (c : ℕ) (r s : Mapping × ℕ) → Agree r s → IsExpansion c s → IsExpansion c r
IsExpansion-Agree c (op, i) (op', i') (same_op, inl undefined) (refused e x) = refused e undefined
IsExpansion-Agree c (op, i) (op', i') (same_op, inl undefined) (hinted e x) = hinted e (same_op ∙ x)
IsExpansion-Agree c (op, i) (op', i') (same_op, inl undefined) (expanded e _ x _ _ _) =
    absurd (x cc)
IsExpansion-Agree c (op, i) (op', i') (same_op, inr same_word) x = rw (same_op, same_word) x

quadrant_lem : (w : ℕ) → is_compressed w ≡ true → half w % 4 < 3
unfolding is_compressed
quadrant_lem w h = ground (arith, and_mask 2 w)

expand_lem :
    (w : ℕ) (c_op : CompressedOpcode)
    → decode_compressed rv32 w ≡ some c_op
    → decode_and_expand_compressed rv32 w ≡ some (expand_compressed rv32 c_op w)
unfolding decode_and_expand_compressed
expand_lem w c_op e = rw (e, decode_and_expand_compressed)

-- Every word with a compressed instruction in its low half is expanded as the C extension says: a
-- reserved encoding (C.SUBW and C.ADDW of RV64 not counted) to no instruction; any other to a
-- full-size word of the instruction that the extension's listing has for it (`add x0, x0, x0` for
-- C.NOP), with the operands of its tables, which the decoder of uncompressed words takes for the same
-- instruction; but the hints of C.ADD, which become EBREAK. The high half of the word has no influence.
pub decode_and_expand-IsExpansion :
    (w : ℕ)
    → is_compressed w ≡ true
    → (c_op : CompressedOpcode) × (r : Mapping × ℕ) × (decode_compressed rv32 w ≡ some c_op)
      × (decode_and_expand_compressed rv32 w ≡ some r)
      × IsExpansion (half w) r
decode_and_expand-IsExpansion w h =
    let (c_op, e, x) =
      decodes_sound (half w) (decode_compressed rv32 (half w))
        (in_table (half w) (omega arith) (quadrant_lem w h)) in
    let e' : decode_compressed rv32 w ≡ some c_op = sym (decode_compressed-half rv32 w) ∙ e in
    (
      c_op,
      expand_compressed rv32 c_op w,
      e',
      expand_lem w c_op e',
      IsExpansion-Agree (half w) _ _ (expand_compressed-half rv32 c_op w) x,
    )
