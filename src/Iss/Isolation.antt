-- ===== src/Iss/Isolation.antt =====
-- What software in S or U cannot change by writing control and status registers.
use symex_vp.Common.{
  ℕ, ◌+◌, ◌-◌, ◌/◌, ◌%◌, ◌≤◌, ◌^◌, ◌≡◌, ◌≢◌, refl, Bool, true, false, truth, ◌&&◌, ltb, leb,
  if◌then◌else◌, if_cases, switch_cases, no_more, ◌also◌, arith, none, some, Option, flag,
  within_mask, all_below, bit_and, bit_and_comm, and_field, shr,
}
use mathlib.Core.Path.{subst}
use symex_vp.Csr.Fields.{get, tvm}
use symex_vp.Csr.Masks.{
  sstatus_mask, ustatus_mask, sie_mask, uie_mask, sip_mask, uip_mask, satp_mask,
}
use symex_vp.Csr.Machine.{pmpaddr0_addr, pmpcfg0_addr}
use symex_vp.Csr.Register.{
  Register, register_mapping, pmp_mapping, mstatus, fcsr, satp, stvec, utvec, sepc, uepc, sideleg,
  sedeleg, scounteren, pmpaddr, pmpcfg,
}
use symex_vp.Iss.Hart.{Hart, SimulationTrap, returned, raised, store}
use symex_vp.Iss.Rights.{raise_illegal_instruction, is_hpmcounter, is_invalid_csr_access}
use symex_vp.Iss.Write.{masked, default_write, set_csr_value}
use symex_vp.Iss.Invariant.{IsValid}
use symex_vp.Iss.Isolated.{
  Isolated, Isolates, unchanged, is_lower, store-Isolated, mstatus-Isolated, mie-Isolated,
  mip-Isolated,
}

data Lower : Option Register → Type 0 where
  unmapped : Lower none
  lower_register : {r : Register} → is_lower r ≡ true → Lower (some r)

-- The address of a register that S or U may write.
record IsLower (addr : ℕ) : Type 0 where
  pub level : addr / 2 ^ 8 % 2 ^ 2 ≤ 1
  pub writable : addr / 2 ^ 10 % 2 ^ 2 ≢ 3

pmp_mapping-Lower : (addr : ℕ) → IsLower addr → Lower (pmp_mapping addr)
unfolding pmp_mapping
pmp_mapping-Lower addr low =
    let in_cfg = leb pmpcfg0_addr addr && ltb addr (pmpcfg0_addr + 4) in
    let cfg = some (pmpcfg (addr - pmpcfg0_addr)) in
    if_cases Lower (leb pmpaddr0_addr addr && ltb addr (pmpaddr0_addr + 16))
      (some (pmpaddr (addr - pmpaddr0_addr))) (if in_cfg then cfg else none)
      (λ e. absurd (ground (arith, e, low.level)))
      (λ _.
        if_cases Lower in_cfg cfg none (λ e. absurd (ground (arith, e, low.level))) (λ _. unmapped))

register_mapping-Lower : (addr : ℕ) → IsLower addr → Lower (register_mapping addr)
unfolding register_mapping
register_mapping-Lower addr low =
    switch_cases Lower addr _ _
      ((λ e. absurd (omega arith))
        also (λ e. absurd (omega arith))
        also (λ e. absurd (omega arith))
        also (λ e. absurd (omega arith))
        also (λ e. absurd (omega arith))
        also (λ e. absurd (omega arith))
        also (λ e. absurd (omega arith))
        also (λ e. absurd (omega arith))
        also (λ e. absurd (omega arith))
        also (λ e. absurd (omega arith))
        also (λ e. absurd (omega arith))
        also (λ e. absurd (omega arith))
        also (λ e. absurd (omega arith))
        also (λ e. absurd (omega arith))
        also (λ e. absurd (omega arith))
        also (λ e. absurd (omega arith))
        also (λ e. absurd (omega arith))
        also (λ e. absurd (omega arith))
        also (λ e. absurd (omega arith))
        also (λ e. absurd (omega arith))
        also (λ e. absurd (omega arith))
        also (λ e. absurd (omega arith))
        also (λ e. absurd (omega arith))
        also (λ e. absurd (omega arith))
        also (λ e. absurd (omega arith))
        also (λ e. absurd (omega arith))
        also (λ e. absurd (omega arith))
        also (λ e. absurd (omega arith))
        also (λ e. absurd (omega arith))
        also (λ _. lower_register refl)
        also (λ _. lower_register refl)
        also (λ _. lower_register refl)
        also (λ _. lower_register refl)
        also (λ _. lower_register refl)
        also (λ _. lower_register refl)
        also (λ _. lower_register refl)
        also (λ _. lower_register refl)
        also (λ _. lower_register refl)
        also (λ _. lower_register refl)
        also (λ _. lower_register refl)
        also (λ _. lower_register refl)
        also (λ _. lower_register refl)
        also (λ _. lower_register refl)
        also (λ _. lower_register refl)
        also no_more)
      (pmp_mapping-Lower addr low)

default_write-Isolates :
    (h : Hart) (addr value : ℕ) → IsLower addr → Isolates h (default_write h addr value)
unfolding default_write
default_write-Isolates h addr value low =
    go (register_mapping addr) (register_mapping-Lower addr low)
  where
    go :
        (o : Option Register)
        → Lower o
        → Isolates h
            (elim o [ none ↦ raise_illegal_instruction h | some r ↦ returned (store r value h) ])
    go none unmapped = refl
    go (some r) (lower_register lower) = store-Isolated h r value lower

satp-Isolated :
    (trapped : Bool) (value : ℕ) (h : Hart)
    → Isolates h
        (if trapped then raise_illegal_instruction h else returned (masked satp satp_mask value h))
satp-Isolated true value h = refl
satp-Isolated false value h = store-Isolated h satp _ refl

write-Isolates :
    (addr value : ℕ) (h : Hart) → IsValid h → IsLower addr → Isolates h (set_csr_value addr value h)
unfolding set_csr_value flag all_below
write-Isolates addr value h valid low =
    if_cases (Isolates h) (is_hpmcounter addr) _ _ (λ _. unchanged h)
      (λ _.
        switch_cases (Isolates h) addr _ _
          ((λ e. absurd (omega arith))
            also (λ _. satp-Isolated (truth (get tvm (h.csrs mstatus))) value h)
            also (λ e. absurd (omega arith))
            also (λ _. store-Isolated h stvec _ refl)
            also (λ _. store-Isolated h utvec _ refl)
            also (λ e. absurd (omega arith))
            also (λ _. store-Isolated h sepc _ refl)
            also (λ _. store-Isolated h uepc _ refl)
            also (λ e. absurd (omega arith))
            also (λ _.
                mstatus-Isolated h sstatus_mask value valid (omega arith)
                  (within_mask sstatus_mask sstatus_mask (omega arith) refl))
            also (λ _.
                mstatus-Isolated h ustatus_mask value valid (omega arith)
                  (within_mask ustatus_mask sstatus_mask (omega arith) refl))
            also (λ e. absurd (omega arith))
            also (λ _.
                mip-Isolated h sip_mask value valid (omega arith)
                  (within_mask sip_mask sip_mask (omega arith) refl))
            also (λ _.
                mip-Isolated h uip_mask value valid (omega arith)
                  (within_mask uip_mask sip_mask (omega arith) refl))
            also (λ e. absurd (omega arith))
            also (λ _.
                mie-Isolated h sie_mask value valid (omega arith)
                  (within_mask sie_mask sie_mask (omega arith) refl))
            also (λ _.
                mie-Isolated h uie_mask value valid (omega arith)
                  (within_mask uie_mask sie_mask (omega arith) refl))
            also (λ e. absurd (omega arith))
            also (λ e. absurd (omega arith))
            also (λ _. store-Isolated h sideleg _ refl)
            also (λ _. store-Isolated h sedeleg _ refl)
            also (λ e. absurd (omega arith))
            also (λ _. store-Isolated h scounteren _ refl)
            also (λ e. absurd (omega arith))
            also (λ _. store-Isolated h fcsr _ refl)
            also (λ _. store-Isolated h fcsr _ refl)
            also (λ _. store-Isolated h fcsr _ refl)
            also (λ e. absurd (omega arith))
            also (λ e. absurd (omega arith))
            also (λ e. absurd (omega arith))
            also (λ e. absurd (omega arith))
            also (λ e. absurd (omega arith))
            also (λ e. absurd (omega arith))
            also (λ e. absurd (omega arith))
            also (λ e. absurd (omega arith))
            also no_more)
          (default_write-Isolates h addr value low))

accepted_lem :
    (b x : Bool) (t : SimulationTrap)
    → (if b then raised t else returned x) ≡ returned false
    → x ≡ false
accepted_lem true x t e = cc
accepted_lem false x t e = cc

-- The address bits that `is_invalid_csr_access` tests.
rights_lem :
    (addr : ℕ) (h : Hart)
    → h.prv ≤ 1
    → is_invalid_csr_access addr true h ≡ returned false
    → IsLower addr
unfolding is_invalid_csr_access
rights_lem addr h low e =
    let valid = accepted_lem _ _ _ e in
    let level_bits : shr (bit_and 0x300 addr) 8 ≡ addr / 2 ^ 8 % 2 ^ 2 =
      omega (arith, bit_and_comm 0x300 addr, and_field 8 2 addr) in
    let readonly_bits : shr (bit_and 0xc00 addr) 10 ≡ addr / 2 ^ 10 % 2 ^ 2 =
      omega (arith, bit_and_comm 0xc00 addr, and_field 10 2 addr) in
    record {
      level = ground (arith, valid, level_bits);
      writable = λ r. ground (arith, valid, readonly_bits, r);
    }

-- A write that `is_invalid_csr_access` lets S or U make leaves every machine register as it was, and of
-- `mstatus`, `mie` and `mip` every flag that is not in the view of S.
pub set_csr_value-Isolated :
    (addr value : ℕ) (h h' : Hart)
    → IsValid h
    → h.prv ≤ 1
    → is_invalid_csr_access addr true h ≡ returned false
    → set_csr_value addr value h ≡ returned h'
    → Isolated h h'
set_csr_value-Isolated addr value h h' valid low rights e =
    subst (Isolates h) e (write-Isolates addr value h valid (rights_lem addr h low rights))
