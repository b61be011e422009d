-- ===== src/Plic/Claim.antt =====
-- Raising, claiming and clearing interrupts of the controller.
use symex_vp.Common.{
  ℕ, ◌*◌, ◌/◌, ◌%◌, ◌<◌, ◌≤◌, ◌^◌, ◌≡◌, refl, sym, ap, ap₂, ◌∙◌, true, false, ◌&&◌, ◌||◌, ◌==◌,
  bit_or, shl32, length, get_or, set, get_or-set_self, get_or-set_ne, arith, flag, flag-le,
  flag-one_bit, flag-bit_or, Bool-cases, ==→eq, inl, inr, some, ltb,
}
use symex_vp.Plic.Controller.{Sizes, Plic, gateway_trigger_interrupt}
use symex_vp.Plic.Next.{is_raised}

-- The pending interrupts are words, and there are enough of them.
pub record IsValid (z : Sizes) (p : Plic) : Type 0 where
  pub word : (k : ℕ) → get_or p.pending_interrupts k 0 < 2 ^ 32
  pub enough : z.number_interrupts ≤ 32 * length p.pending_interrupts

raised_word :
    (w i j : ℕ) → j < 32 → (flag i (bit_or w (shl32 1 j)) == 1) ≡ ((flag i w == 1) || (i == j))
raised_word w i j lt = ground (arith, flag-bit_or i w (shl32 1 j), flag-one_bit i j lt, flag-le i w)

module _ (p : Plic) (irq j : ℕ) (within : irq / 32 < length p.pending_interrupts) where
  -- The flag of interrupt `j` after the word of `irq` was replaced by `v`.
  replaced_same :
      (v : ℕ) (e : irq / 32 ≡ j / 32)
      → get_or (set p.pending_interrupts (irq / 32) v) (j / 32) 0 ≡ v
  replaced_same v e =
      ap (λ k. get_or (set p.pending_interrupts (irq / 32) v) k 0) (sym e)
      ∙ get_or-set_self p.pending_interrupts (irq / 32) v 0 within

  replaced_other :
      (v : ℕ)
      → (irq / 32 == j / 32) ≡ false
      → get_or (set p.pending_interrupts (irq / 32) v) (j / 32) 0
        ≡ get_or p.pending_interrupts (j / 32) 0
  replaced_other v e =
      get_or-set_ne p.pending_interrupts (irq / 32) (j / 32) v 0 (λ same. ground (arith, e, same))

same_number : (irq j : ℕ) → irq / 32 ≡ j / 32 → (j % 32 == irq % 32) ≡ (j == irq)
same_number irq j e = ground (arith, e)

-- A gateway's trigger of an interrupt that the controller has raises its flag and no other.
pub is_raised-gateway_trigger_interrupt :
    (z : Sizes) (p : Plic) (irq : ℕ)
    → IsValid z p
    → 1 ≤ irq
    → irq < z.number_interrupts
    → (p' : Plic) × (gateway_trigger_interrupt z irq p ≡ some p')
      × ((j : ℕ) → is_raised p' j ≡ (is_raised p j || (j == irq)))
unfolding gateway_trigger_interrupt
is_raised-gateway_trigger_interrupt z p irq valid pos lt =
    let old = get_or p.pending_interrupts (irq / 32) 0 in
    let v = bit_or old (shl32 1 (irq % 32)) in
    let p' = record p { pending_interrupts = set p.pending_interrupts (irq / 32) v } in
    let within : irq / 32 < length p.pending_interrupts = omega (arith, valid.enough) in
    let accepted : (ltb 0 irq && ltb irq z.number_interrupts) ≡ true = ground (arith, pos, lt) in
    (
      p',
      rw accepted refl,
      λ j. elim (Bool-cases (irq / 32 == j / 32)) [
        | inl e ↦
            (let idx = ==→eq (irq / 32) (j / 32) e in
              ap (λ x. flag (j % 32) x == 1) (replaced_same p irq j within v idx)
              ∙ raised_word old (j % 32) (irq % 32) (omega arith)
              ∙ ap₂ (λ x b. (flag (j % 32) x == 1) || b)
                  (ap (λ k. get_or p.pending_interrupts k 0) idx) (same_number irq j idx))
        | inr e ↦
            ap (λ x. flag (j % 32) x == 1) (replaced_other p irq j within v e) ∙ ground (arith, e)
      ],
    )
