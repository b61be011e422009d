-- ===== src/Iss/Isolated.antt =====
-- What software in S or U cannot change by writing control and status registers.
use symex_vp.Common.{
  ℕ, ◌<◌, ◌^◌, ◌≡◌, refl, Bool, true, false, ◌&&◌, ◌||◌, not, ◌==◌, ltb, leb, if_cases, arith, flag,
  flag-merge, ◌⊎◌, inl, inr, Bool-cases,
}
use symex_vp.Csr.Masks.{sstatus_mask, sie_mask, sip_mask}
use symex_vp.Csr.Register.{Register, index, mstatus, mie, mip}
use symex_vp.Iss.Hart.{Hart, Result, returned, raised, aborted, store}
use symex_vp.Iss.Write.{masked, merge}
use symex_vp.Iss.Invariant.{IsValid}

-- The registers of M: the counters, the identification, the machine and the protection registers; not
-- the three that S sees a part of.
abbrev pub is_machine : Register → Bool
is_machine r =
    let i = index r in
    (ltb i 23 && not ((i == index mstatus) || ((i == index mie) || (i == index mip)))) || leb 38 i

-- `h'` has the machine registers of `h`, and the flags outside the views of S.
pub record Isolated (h h' : Hart) : Type 0 where
  pub machine : (r : Register) → (is_machine r && not (h'.csrs r == h.csrs r)) ≡ false
  pub status :
      (i : ℕ) → (flag i sstatus_mask ≡ 1) ⊎ (flag i (h'.csrs mstatus) ≡ flag i (h.csrs mstatus))
  pub enables : (i : ℕ) → (flag i sie_mask ≡ 1) ⊎ (flag i (h'.csrs mie) ≡ flag i (h.csrs mie))
  pub pending : (i : ℕ) → (flag i sip_mask ≡ 1) ⊎ (flag i (h'.csrs mip) ≡ flag i (h.csrs mip))

abbrev pub Isolates : Hart → Result Hart → Type 0
Isolates h (returned h') = Isolated h h'
Isolates h (raised t) = true ≡ true
Isolates h aborted = true ≡ true

pub unchanged : (h : Hart) → Isolated h h
unchanged h = record {
  machine = λ r. ground arith;
  status = λ i. inr refl;
  enables = λ i. inr refl;
  pending = λ i. inr refl;
}

-- A register of S or U alone.
abbrev pub is_lower : Register → Bool
is_lower r = leb 23 (index r) && leb (index r) 37

pub store-Isolated :
    (h : Hart) (r : Register) (v : ℕ) → is_lower r ≡ true → Isolated h (store r v h)
store-Isolated h r v lower = record {
  machine = λ s.
      if_cases (λ t. (is_machine s && not (t == h.csrs s)) ≡ false) (index s == index r) v
        (h.csrs s) (λ e. ground (arith, e, lower)) (λ _. ground arith);
  status = λ i. inr (
      if_cases (λ t. flag i t ≡ flag i (h.csrs mstatus)) (index mstatus == index r) v
        (h.csrs mstatus) (λ e. absurd (ground (arith, e, lower))) (λ _. refl));
  enables = λ i. inr (
      if_cases (λ t. flag i t ≡ flag i (h.csrs mie)) (index mie == index r) v (h.csrs mie)
        (λ e. absurd (ground (arith, e, lower))) (λ _. refl));
  pending = λ i. inr (
      if_cases (λ t. flag i t ≡ flag i (h.csrs mip)) (index mip == index r) v (h.csrs mip)
        (λ e. absurd (ground (arith, e, lower))) (λ _. refl));
}

merged-within :
    (h : Hart) (r : Register) (mask view value : ℕ)
    → IsValid h
    → mask < 2 ^ 32
    → ((i : ℕ) → flag i mask ≡ 1 → flag i view ≡ 1)
    → (i : ℕ) → (flag i view ≡ 1) ⊎ (flag i (merge mask value (h.csrs r)) ≡ flag i (h.csrs r))
merged-within h r mask view value valid small within i = elim (Bool-cases (flag i mask == 1)) [
  | inl e ↦ inl (within i (ground (arith, e)))
  | inr e ↦ inr (ground (arith, e, flag-merge mask value (h.csrs r) small (valid.words r) i))
]

pub mstatus-Isolated :
    (h : Hart) (mask value : ℕ)
    → IsValid h
    → mask < 2 ^ 32
    → ((i : ℕ) → flag i mask ≡ 1 → flag i sstatus_mask ≡ 1)
    → Isolated h (masked mstatus mask value h)
mstatus-Isolated h mask value valid small within = record {
  machine = λ s.
      if_cases (λ t. (is_machine s && not (t == h.csrs s)) ≡ false) (index s == index mstatus)
        (merge mask value (h.csrs mstatus)) (h.csrs s) (λ e. ground (arith, e)) (λ _. ground arith);
  status = merged-within h mstatus mask sstatus_mask value valid small within;
  enables = λ i. inr refl;
  pending = λ i. inr refl;
}

pub mie-Isolated :
    (h : Hart) (mask value : ℕ)
    → IsValid h
    → mask < 2 ^ 32
    → ((i : ℕ) → flag i mask ≡ 1 → flag i sie_mask ≡ 1)
    → Isolated h (masked mie mask value h)
mie-Isolated h mask value valid small within = record {
  machine = λ s.
      if_cases (λ t. (is_machine s && not (t == h.csrs s)) ≡ false) (index s == index mie)
        (merge mask value (h.csrs mie)) (h.csrs s) (λ e. ground (arith, e)) (λ _. ground arith);
  status = λ i. inr refl;
  enables = merged-within h mie mask sie_mask value valid small within;
  pending = λ i. inr refl;
}

pub mip-Isolated :
    (h : Hart) (mask value : ℕ)
    → IsValid h
    → mask < 2 ^ 32
    → ((i : ℕ) → flag i mask ≡ 1 → flag i sip_mask ≡ 1)
    → Isolated h (masked mip mask value h)
mip-Isolated h mask value valid small within = record {
  machine = λ s.
      if_cases (λ t. (is_machine s && not (t == h.csrs s)) ≡ false) (index s == index mip)
        (merge mask value (h.csrs mip)) (h.csrs s) (λ e. ground (arith, e)) (λ _. ground arith);
  status = λ i. inr refl;
  enables = λ i. inr refl;
  pending = merged-within h mip mask sip_mask value valid small within;
}
