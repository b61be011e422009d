-- ===== src/Iss/Exception.antt =====
-- The exceptions that `run_step` hands to a trap handler.
use symex_vp.Common.{
  ℕ, ◌≤◌, ◌<◌, ◌^◌, ◌≡◌, refl, ◌||◌, not, ◌==◌, leb, flag, truth, shl32, bit_and, [], ◌∷◌, switch,
  if◌then◌else◌, if_cases, arith, ◌⊎◌, one_bit-unset,
}
use symex_vp.Csr.Fields.{get, interrupt, exception_code}
use symex_vp.Csr.Register.{Register, medeleg, sedeleg, mtval, stval, utval}
use symex_vp.Iss.Hart.{
  Hart, SimulationTrap, Result, returned, raised, aborted, machine_mode, supervisor_mode, user_mode,
  release_lr_sc_reservation,
}
use symex_vp.Iss.Trap.{prepare_trap, switch_to_trap_handler, take_trap}
use symex_vp.Iss.Interrupt.{cause_of, epc_of}

unfoldable pub tval_of : ℕ → Register
unfolding switch
tval_of t = switch t ((machine_mode, mtval) ∷ (supervisor_mode, stval) ∷ []) utval

-- The mode that handles exception `code`: M unless it is delegated; S, which M never hands to, unless
-- it is delegated on; and U.
abbrev pub trap_level : Hart → ℕ → ℕ
trap_level h code =
    if (h.prv == machine_mode) || (flag code (h.csrs medeleg) == 0)
    then machine_mode
    else (if (h.prv == supervisor_mode) || (flag code (h.csrs sedeleg) == 0)
        then supervisor_mode
        else user_mode)

-- The trap `e` is taken by the mode that it is delegated to, with the instruction that raised it.
pub record IsHandled (e : SimulationTrap) (h h' : Hart) : Type 0 where
  pub prv : h'.prv ≡ trap_level h e.reason
  pub never_lower : h.prv ≤ h'.prv
  pub is_exception : get interrupt (h'.csrs (cause_of h'.prv)) ≡ 0
  pub reason : get exception_code (h'.csrs (cause_of h'.prv)) ≡ e.reason
  pub value : h'.csrs (tval_of h'.prv) ≡ e.mtval
  pub instruction : h'.csrs (epc_of h'.prv) ≡ h.last_pc

-- The state that the handler finds, from what `prepare_trap` gives.
abbrev Handled : SimulationTrap → Hart → Result (Hart × ℕ) → Type 0
Handled e h r =
    (h' : Hart) × ((elim r [
      | returned (h1, t) ↦ switch_to_trap_handler t h1
      | raised x ↦ raised x
      | aborted ↦ aborted
    ])
      ≡ returned h')
    × IsHandled e h h'

-- An exception of an instruction is handled by the mode that the delegation registers name, never a
-- lower one than the hart's; its cause and value and the address of the instruction stand in the
-- registers of that mode.
pub take_trap-IsHandled :
    (h : Hart) (e : SimulationTrap)
    → ((h.prv ≡ machine_mode) ⊎ ((h.prv ≡ supervisor_mode) ⊎ (h.prv ≡ user_mode)))
    → e.reason < 16
    → e.mtval < 2 ^ 32
    → (h' : Hart) × (take_trap e h ≡ returned h') × IsHandled e h h'
unfolding take_trap prepare_trap switch_to_trap_handler switch release_lr_sc_reservation cause_of
    epc_of tval_of
take_trap-IsHandled h e mode code value =
    let to_m = one_bit-unset e.reason (h.csrs medeleg) (omega arith) in
    let to_s = one_bit-unset e.reason (h.csrs sedeleg) (omega arith) in
    if_cases (Handled e h) (leb (2 ^ 32) e.mtval) _ _ (λ large. absurd (ground arith))
      (λ _.
        if_cases (Handled e h)
          ((h.prv == machine_mode) || not (truth (bit_and (shl32 1 e.reason) (h.csrs medeleg)))) _ _
          (λ m. (
            _,
            refl,
            record {
              prv = ground (arith, m, to_m);
              never_lower = ground (arith, mode);
              is_exception = omega arith;
              reason = omega arith;
              value = refl;
              instruction = refl;
            },
          ))
          (λ no_m.
            if_cases (Handled e h)
              ((h.prv == supervisor_mode)
                || not (truth (bit_and (shl32 1 e.reason) (h.csrs sedeleg))))
              _ _
              (λ s. (
                _,
                refl,
                record {
                  prv = ground (arith, s, no_m, to_m, to_s);
                  never_lower = ground (arith, mode, no_m);
                  is_exception = omega arith;
                  reason = omega arith;
                  value = refl;
                  instruction = refl;
                },
              ))
              (λ no_s.
                if_cases (Handled e h) (h.prv == user_mode) _ _
                  (λ u. (
                    _,
                    refl,
                    record {
                      prv = ground (arith, no_s, no_m, to_m, to_s);
                      never_lower = ground (arith, mode, no_m, no_s);
                      is_exception = omega arith;
                      reason = omega arith;
                      value = refl;
                      instruction = refl;
                    },
                  ))
                  (λ no_u. absurd (ground (arith, mode, no_m, no_s, no_u))))))
