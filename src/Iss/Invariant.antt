-- ===== src/Iss/Invariant.antt =====
-- The invariant of a hart, and that a write to a control and status register keeps it.
use symex_vp.Common.{
  ℕ, ◌+◌, ◌-◌, leb, ltb, ◌&&◌, Bool, truth, ◌≤◌, ◌<◌, ◌^◌, ◌≡◌, refl, sym, ◌∙◌, Option, Bool-cases,
  ==→eq, true, false, ◌==◌, flag, flag-merge, merge-lt, bit_or-lt, bit_and-le, bit_and-le_right,
  bit_and, not32, arith, if◌then◌else◌, if_cases, switch, switch_cases, no_more, ◌also◌, none, some,
  inl, inr,
}
use mathlib.Core.Path.{subst}
use symex_vp.Csr.Fields.{get, tvm}
use symex_vp.Csr.Masks.{
  mie_mask, sie_mask, uie_mask, mip_write_mask, sip_mask, uip_mask, medeleg_mask, mideleg_mask,
  mtvec_mask, mcounteren_mask, mcountinhibit_mask, sedeleg_mask, sideleg_mask, mstatus_mask,
  sstatus_mask, ustatus_mask, satp_mask, fcsr_mask,
}
use symex_vp.Csr.Machine.{mie_addr, pmpaddr0_addr, pmpcfg0_addr}
use symex_vp.Iss.Rights.{raise_illegal_instruction, is_hpmcounter}
use symex_vp.Csr.Register.{
  Register, index, register_mapping, pmp_mapping, pmpaddr, pmpcfg, mstatus, medeleg, mideleg, mie,
  mtvec, mcounteren, mcountinhibit, mepc, mip, sedeleg, sideleg, stvec, scounteren, sepc, satp,
  utvec, uepc, fcsr, mie,
}
use symex_vp.Iss.Hart.{Hart, Result, returned, raised, aborted, store}
use symex_vp.Iss.Priority.{OnlyInterrupts}
use symex_vp.Iss.Write.{masked, merge, pc_alignment_mask, default_write, set_csr_value}

-- Every register and program counter holds a word, only the interrupts of the machine are enabled,
-- and the mode is two bits.
pub record IsValid (h : Hart) : Type 0 where
  pub words : (r : Register) → h.csrs r < 2 ^ 32
  pub interrupts : OnlyInterrupts (h.csrs mie)
  pub mode : h.prv ≤ 3
  pub pc_word : h.pc < 2 ^ 32
  pub last_pc_word : h.last_pc < 2 ^ 32

-- `P` holds of the hart if the operation returns one.
abbrev pub Returns : (Hart → Type 0) → Result Hart → Type 0
Returns P (returned h) = P h
Returns P (raised t) = true ≡ true
Returns P aborted = true ≡ true

pub store-IsValid :
    (h : Hart) (r : Register) (v : ℕ)
    → IsValid h
    → v < 2 ^ 32
    → (index r == index mie) ≡ false
    → IsValid (store r v h)
store-IsValid h r v valid small other = record {
  words = λ s.
      if_cases (λ t. t < 2 ^ 32) (index s == index r) v (h.csrs s) (λ _. small)
        (λ _. valid.words s);
  interrupts =
      if_cases OnlyInterrupts (index mie == index r) v (h.csrs mie) (λ e. absurd (ground arith))
        (λ _. valid.interrupts);
  mode = valid.mode;
  pc_word = valid.pc_word;
  last_pc_word = valid.last_pc_word;
}

masked-IsValid :
    (h : Hart) (r : Register) (mask value : ℕ)
    → IsValid h
    → mask < 2 ^ 32
    → (index r == index mie) ≡ false
    → IsValid (masked r mask value h)
masked-IsValid h r mask value valid small other =
    store-IsValid h r _ valid (merge-lt mask value (h.csrs r) small (valid.words r)) other

-- A mask that leaves the unused flags of `mie` alone.
Keeps : ℕ → Type 0
Keeps mask = (flag 2 mask ≡ 0) × (flag 6 mask ≡ 0) × (flag 10 mask ≡ 0)

mie-IsValid :
    (h : Hart) (mask value : ℕ)
    → IsValid h
    → mask < 2 ^ 12
    → Keeps mask
    → IsValid (masked mie mask value h)
unfolding Keeps OnlyInterrupts
mie-IsValid h mask value valid small (k2, k6, k10) = record {
  words = λ s.
      if_cases (λ t. t < 2 ^ 32) (index s == index mie) (merge mask value (h.csrs mie)) (h.csrs s)
        (λ _. merge-lt mask value (h.csrs mie) (omega arith) (valid.words mie))
        (λ _. valid.words s);
  interrupts = (
    bit_or-lt 12 (bit_and (h.csrs mie) (not32 mask)) (bit_and value mask)
        (omega (arith, valid.interrupts.0, bit_and-le (h.csrs mie) (not32 mask)))
        (omega (arith, bit_and-le_right value mask)),
    kept 2 k2 ∙ valid.interrupts.1,
    kept 6 k6 ∙ valid.interrupts.2,
    kept 10 k10 ∙ valid.interrupts.3,
  );
  mode = valid.mode;
  pc_word = valid.pc_word;
  last_pc_word = valid.last_pc_word;
}
  where
    kept : (i : ℕ) → flag i mask ≡ 0 → flag i (merge mask value (h.csrs mie)) ≡ flag i (h.csrs mie)
    kept i k =
        ground (arith, k, flag-merge mask value (h.csrs mie) (omega arith) (valid.words mie) i)

pc_alignment_mask_lem : (h : Hart) → pc_alignment_mask h < 2 ^ 32
pc_alignment_mask_lem h = ground arith

data NotMie : Option Register → Type 0 where
  unmapped : NotMie none
  other_register : {r : Register} → (index r == index mie) ≡ false → NotMie (some r)

pmp_mapping-NotMie : (addr : ℕ) → NotMie (pmp_mapping addr)
unfolding pmp_mapping
pmp_mapping-NotMie addr =
    let in_cfg = leb pmpcfg0_addr addr && ltb addr (pmpcfg0_addr + 4) in
    let cfg = some (pmpcfg (addr - pmpcfg0_addr)) in
    if_cases NotMie (leb pmpaddr0_addr addr && ltb addr (pmpaddr0_addr + 16))
      (some (pmpaddr (addr - pmpaddr0_addr))) (if in_cfg then cfg else none)
      (λ _. other_register (ground arith))
      (λ _. if_cases NotMie in_cfg cfg none (λ _. other_register (ground arith)) (λ _. unmapped))

-- The default of `set_csr_value` never writes `mie`.
register_mapping-NotMie : (addr : ℕ) → (addr == mie_addr) ≡ false → NotMie (register_mapping addr)
unfolding register_mapping
register_mapping-NotMie addr other =
    switch_cases NotMie addr _ _
      ((λ _. other_register refl)
        also (λ _. other_register refl)
        also (λ _. other_register refl)
        also (λ _. other_register refl)
        also (λ _. other_register refl)
        also (λ _. other_register refl)
        also (λ _. other_register refl)
        also (λ _. other_register refl)
        also (λ _. other_register refl)
        also (λ _. other_register refl)
        also (λ _. other_register refl)
        also (λ _. other_register refl)
        also (λ _. other_register refl)
        also (λ _. other_register refl)
        also (λ _. other_register refl)
        also (λ _. other_register refl)
        also (λ _. other_register refl)
        also (λ _. other_register refl)
        also (λ _. other_register refl)
        also (λ _. other_register refl)
        also (λ e. absurd (ground (arith, e, other)))
        also (λ _. other_register refl)
        also (λ _. other_register refl)
        also (λ _. other_register refl)
        also (λ _. other_register refl)
        also (λ _. other_register refl)
        also (λ _. other_register refl)
        also (λ _. other_register refl)
        also (λ _. other_register refl)
        also (λ _. other_register refl)
        also (λ _. other_register refl)
        also (λ _. other_register refl)
        also (λ _. other_register refl)
        also (λ _. other_register refl)
        also (λ _. other_register refl)
        also (λ _. other_register refl)
        also (λ _. other_register refl)
        also (λ _. other_register refl)
        also (λ _. other_register refl)
        also (λ _. other_register refl)
        also (λ _. other_register refl)
        also (λ _. other_register refl)
        also (λ _. other_register refl)
        also (λ _. other_register refl)
        also no_more)
      (pmp_mapping-NotMie addr)

default_write-IsValid :
    (h : Hart) (addr value : ℕ)
    → IsValid h
    → value < 2 ^ 32
    → (addr == mie_addr) ≡ false
    → Returns IsValid (default_write h addr value)
unfolding default_write
default_write-IsValid h addr value valid small other =
    go (register_mapping addr) (register_mapping-NotMie addr other)
  where
    go :
        (o : Option Register)
        → NotMie o
        → Returns IsValid
            (elim o [ none ↦ raise_illegal_instruction h | some r ↦ returned (store r value h) ])
    go none unmapped = refl
    go (some r) (other_register not_mie) = store-IsValid h r value valid small not_mie

satp-IsValid :
    (trapped : Bool) (value : ℕ) (h : Hart)
    → IsValid h
    → Returns IsValid
        (if trapped then raise_illegal_instruction h else returned (masked satp satp_mask value h))
satp-IsValid true value h valid = refl
satp-IsValid false value h valid = masked-IsValid h satp satp_mask value valid (omega arith) refl

write_other :
    (addr value : ℕ) (h : Hart)
    → IsValid h
    → value < 2 ^ 32
    → (addr == mie_addr) ≡ false
    → Returns IsValid (set_csr_value addr value h)
unfolding set_csr_value Keeps flag
write_other addr value h valid small other =
    if_cases (Returns IsValid) (is_hpmcounter addr) _ _ (λ _. valid)
      (λ _.
        switch_cases (Returns IsValid) addr _ _
          ((λ _. valid)
            also (λ _. satp-IsValid (truth (get tvm (h.csrs mstatus))) value h valid)
            also (λ _. masked-IsValid h mtvec mtvec_mask value valid (omega arith) refl)
            also (λ _. masked-IsValid h stvec mtvec_mask value valid (omega arith) refl)
            also (λ _. masked-IsValid h utvec mtvec_mask value valid (omega arith) refl)
            also (λ _.
                masked-IsValid h mepc (pc_alignment_mask h) value valid (pc_alignment_mask_lem h)
                  refl)
            also (λ _.
                masked-IsValid h sepc (pc_alignment_mask h) value valid (pc_alignment_mask_lem h)
                  refl)
            also (λ _.
                masked-IsValid h uepc (pc_alignment_mask h) value valid (pc_alignment_mask_lem h)
                  refl)
            also (λ _. masked-IsValid h mstatus mstatus_mask value valid (omega arith) refl)
            also (λ _. masked-IsValid h mstatus sstatus_mask value valid (omega arith) refl)
            also (λ _. masked-IsValid h mstatus ustatus_mask value valid (omega arith) refl)
            also (λ _. masked-IsValid h mip mip_write_mask value valid (omega arith) refl)
            also (λ _. masked-IsValid h mip sip_mask value valid (omega arith) refl)
            also (λ _. masked-IsValid h mip uip_mask value valid (omega arith) refl)
            also (λ _. mie-IsValid h mie_mask value valid (omega arith) (refl, refl, refl))
            also (λ _. mie-IsValid h sie_mask value valid (omega arith) (refl, refl, refl))
            also (λ _. mie-IsValid h uie_mask value valid (omega arith) (refl, refl, refl))
            also (λ _. masked-IsValid h mideleg mideleg_mask value valid (omega arith) refl)
            also (λ _. masked-IsValid h medeleg medeleg_mask value valid (omega arith) refl)
            also (λ _. masked-IsValid h sideleg sideleg_mask value valid (omega arith) refl)
            also (λ _. masked-IsValid h sedeleg sedeleg_mask value valid (omega arith) refl)
            also (λ _. masked-IsValid h mcounteren mcounteren_mask value valid (omega arith) refl)
            also (λ _. masked-IsValid h scounteren mcounteren_mask value valid (omega arith) refl)
            also (λ _.
                masked-IsValid h mcountinhibit mcountinhibit_mask value valid (omega arith) refl)
            also (λ _. masked-IsValid h fcsr fcsr_mask value valid (omega arith) refl)
            also (λ _. store-IsValid h fcsr _ valid (omega (arith, valid.words fcsr)) refl)
            also (λ _. store-IsValid h fcsr _ valid (omega (arith, valid.words fcsr)) refl)
            also (λ _. valid)
            also (λ _. valid)
            also (λ _. valid)
            also (λ _. valid)
            also (λ _. valid)
            also (λ _. valid)
            also (λ _. valid)
            also (λ _. valid)
            also no_more)
          (default_write-IsValid h addr value valid small other))

write_mie : (value : ℕ) (h : Hart) → IsValid h → Returns IsValid (set_csr_value mie_addr value h)
unfolding set_csr_value switch is_hpmcounter Keeps flag
write_mie value h valid = mie-IsValid h mie_mask value valid (omega arith) (refl, refl, refl)

pub set_csr_value-IsValid :
    (addr value : ℕ) (h h' : Hart)
    → IsValid h
    → value < 2 ^ 32
    → set_csr_value addr value h ≡ returned h'
    → IsValid h'
set_csr_value-IsValid addr value h h' valid small e =
    subst (Returns IsValid) e (elim (Bool-cases (addr == mie_addr)) [
      | inl at_mie ↦
          subst (λ a. Returns IsValid (set_csr_value a value h)) (sym (==→eq addr mie_addr at_mie))
            (write_mie value h valid)
      | inr other ↦ write_other addr value h valid small other
    ])
