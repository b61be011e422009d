-- ===== src/Iss/Steps.antt =====
-- Traps, interrupts and returns keep the invariant of a hart.
use symex_vp.Common.{
  ℕ, ◌≤◌, ◌<◌, ◌^◌, ◌≡◌, refl, Bool, true, false, ◌==◌, if_cases, switch_cases, no_more, ◌also◌,
  arith, not, ◌||◌, truth, bit_and, shl32, leb,
}
use symex_vp.Csr.Register.{
  Register, index, mstatus, mie, mip, mcause, scause, ucause, mtval, stval, utval, mepc, sepc, uepc,
  mtvec, stvec, utvec, medeleg, sedeleg,
}
use symex_vp.Iss.Hart.{
  Hart, SimulationTrap, Result, returned, raised, aborted, store, machine_mode, supervisor_mode,
  user_mode, none_mode, release_lr_sc_reservation,
}
use symex_vp.Iss.Trap.{
  PendingInterrupts, return_from_trap_handler, switch_to_trap_handler, prepare_trap,
  prepare_interrupt, record_interrupt, interrupt_code, take_trap, take_interrupt, set_cause,
  handler_address, trigger_external_interrupt, clear_external_interrupt, trigger_timer_interrupt,
  trigger_software_interrupt, compute_pending_interrupts,
}
use symex_vp.Iss.Invariant.{IsValid, Returns, store-IsValid}

-- The hart goes on in a mode at an address.
moved-IsValid :
    (h : Hart) (prv pc : ℕ)
    → IsValid h
    → prv ≤ 3
    → pc < 2 ^ 32
    → IsValid (record h { prv = prv; pc = pc })
moved-IsValid h prv pc valid le word = record {
  words = valid.words;
  interrupts = valid.interrupts;
  mode = le;
  pc_word = word;
  last_pc_word = valid.last_pc_word;
}

released-IsValid : (h : Hart) → IsValid h → IsValid (release_lr_sc_reservation h)
unfolding release_lr_sc_reservation
released-IsValid h valid = record {
  words = valid.words;
  interrupts = valid.interrupts;
  mode = valid.mode;
  pc_word = valid.pc_word;
  last_pc_word = valid.last_pc_word;
}

handler_address-lt : (tvec cause : ℕ) → handler_address tvec cause < 2 ^ 32
handler_address-lt tvec cause = ground arith

set_cause-IsValid :
    (h : Hart) (r : Register) (flag code : ℕ)
    → IsValid h
    → (index r == index mie) ≡ false
    → IsValid (set_cause r flag code h)
set_cause-IsValid h r flag code valid other =
    store-IsValid h r _ valid (omega (arith, valid.words r)) other

pub return-IsValid : (t : ℕ) (h : Hart) → IsValid h → Returns IsValid (return_from_trap_handler t h)
unfolding return_from_trap_handler
return-IsValid t h valid =
    let word = valid.words mstatus in
    switch_cases (Returns IsValid) t _ _
      ((λ _.
          store-IsValid _ mstatus _ (moved-IsValid h _ _ valid (omega arith) (valid.words mepc))
            (omega arith) refl)
        also (λ _.
            store-IsValid _ mstatus _ (moved-IsValid h _ _ valid (omega arith) (valid.words sepc))
              (omega arith) refl)
        also (λ _.
            store-IsValid _ mstatus _ (moved-IsValid h _ _ valid (omega arith) (valid.words uepc))
              (omega arith) refl)
        also no_more)
      refl

switch_to-IsValid : (t : ℕ) (h : Hart) → IsValid h → Returns IsValid (switch_to_trap_handler t h)
unfolding switch_to_trap_handler
switch_to-IsValid t h valid =
    let word = valid.words mstatus in
    let free = released-IsValid h valid in
    let entry : (tvec cause : ℕ)
        → t ≤ 3
        → IsValid
            (record (release_lr_sc_reservation h) { prv = t; pc = handler_address tvec cause }) =
      λ tvec cause le.
        moved-IsValid (release_lr_sc_reservation h) t (handler_address tvec cause) free le
          (handler_address-lt tvec cause) in
    switch_cases (Returns IsValid) t _ _
      ((λ e.
          store-IsValid _ mstatus _
            (store-IsValid _ mepc _ (entry (h.csrs mtvec) (h.csrs mcause) (omega arith))
              valid.pc_word refl)
            (omega arith) refl)
        also (λ e.
            store-IsValid _ mstatus _
              (store-IsValid _ sepc _ (entry (h.csrs stvec) (h.csrs scause) (omega arith))
                valid.pc_word refl)
              (omega arith) refl)
        also (λ e.
            store-IsValid _ mstatus _
              (store-IsValid _ uepc _ (entry (h.csrs utvec) (h.csrs ucause) (omega arith))
                valid.pc_word refl)
              (omega arith) refl)
        also no_more)
      refl

-- The mode's handler is entered in a state that keeps the invariant.
abbrev Prepared : Result (Hart × ℕ) → Type 0
Prepared (returned (h, t)) = IsValid h
Prepared (raised x) = true ≡ true
Prepared aborted = true ≡ true

stopped-IsValid : (h : Hart) → IsValid h → IsValid (record h { pc = h.last_pc })
stopped-IsValid h valid = moved-IsValid h h.prv h.last_pc valid valid.mode valid.last_pc_word

caused-IsValid :
    (h : Hart) (tval cause : Register) (value code : ℕ)
    → IsValid h
    → value < 2 ^ 32
    → (index tval == index mie) ≡ false
    → (index cause == index mie) ≡ false
    → IsValid (store tval value (set_cause cause 0 code (record h { pc = h.last_pc })))
caused-IsValid h tval cause value code valid small other_t other_c =
    store-IsValid _ tval value
      (set_cause-IsValid (record h { pc = h.last_pc }) cause 0 code (stopped-IsValid h valid)
        other_c)
      small other_t

prepare_trap-Prepared : (e : SimulationTrap) (h : Hart) → IsValid h → Prepared (prepare_trap e h)
unfolding prepare_trap
prepare_trap-Prepared e h valid =
    let bit = shl32 1 e.reason in
    if_cases Prepared (leb (2 ^ 32) e.mtval) _ _ (λ _. refl)
      (λ fits.
        let small : e.mtval < 2 ^ 32 = ground (arith, fits) in
        if_cases Prepared ((h.prv == machine_mode) || not (truth (bit_and bit (h.csrs medeleg)))) _
          _ (λ _. caused-IsValid h mtval mcause e.mtval e.reason valid small refl refl)
          (λ _.
            if_cases Prepared
              ((h.prv == supervisor_mode) || not (truth (bit_and bit (h.csrs sedeleg)))) _ _
              (λ _. caused-IsValid h stval scause e.mtval e.reason valid small refl refl)
              (λ _.
                if_cases Prepared (h.prv == user_mode) _ _
                  (λ _. caused-IsValid h utval ucause e.mtval e.reason valid small refl refl)
                  (λ _. refl))))

pub take_trap-IsValid :
    (e : SimulationTrap) (h : Hart) → IsValid h → Returns IsValid (take_trap e h)
unfolding take_trap
take_trap-IsValid e h valid = go (prepare_trap e h) (prepare_trap-Prepared e h valid)
  where
    go :
        (r : Result (Hart × ℕ))
        → Prepared r
        → Returns IsValid (elim r [
          | returned (h', target_mode) ↦ switch_to_trap_handler target_mode h'
          | raised t ↦ raised t
          | aborted ↦ aborted
        ])
    go (returned (h', t)) v = switch_to-IsValid t h' v
    go (raised x) v = refl
    go aborted v = refl

record_interrupt-IsValid :
    (t code : ℕ) (h : Hart) → IsValid h → Returns IsValid (record_interrupt t code h)
unfolding record_interrupt
record_interrupt-IsValid t code h valid =
    switch_cases (Returns IsValid) t _ _
      ((λ _. set_cause-IsValid h mcause 1 code valid refl)
        also (λ _. set_cause-IsValid h scause 1 code valid refl)
        also (λ _. set_cause-IsValid h ucause 1 code valid refl)
        also no_more)
      refl

prepare_interrupt-IsValid :
    (x : PendingInterrupts) (h : Hart) → IsValid h → Returns IsValid (prepare_interrupt x h)
unfolding prepare_interrupt
prepare_interrupt-IsValid x h valid = go (interrupt_code x.pending)
  where
    go :
        (r : Result ℕ)
        → Returns IsValid (elim r [
          | returned exc ↦ record_interrupt x.target_mode exc h
          | raised e ↦ raised e
          | aborted ↦ aborted
        ])
    go (returned exc) = record_interrupt-IsValid x.target_mode exc h valid
    go (raised e) = refl
    go aborted = refl

pub take_interrupt-IsValid : (h : Hart) → IsValid h → Returns IsValid (take_interrupt h)
unfolding take_interrupt
take_interrupt-IsValid h valid =
    let x = compute_pending_interrupts h in
    if_cases (Returns IsValid) (x.target_mode == none_mode) _ _ (λ _. valid)
      (λ _. enter x.target_mode (prepare_interrupt x h) (prepare_interrupt-IsValid x h valid))
  where
    enter :
        (t : ℕ) (r : Result Hart)
        → Returns IsValid r
        → Returns IsValid (elim r [
          | returned h' ↦ switch_to_trap_handler t h'
          | raised e ↦ raised e
          | aborted ↦ aborted
        ])
    enter t (returned h') v = switch_to-IsValid t h' v
    enter t (raised e) v = refl
    enter t aborted v = refl

-- The interrupt lines of the PLIC and the CLINT set and clear flags of `mip`.
pub trigger-IsValid :
    (level : ℕ) (h : Hart) → IsValid h → IsValid (trigger_external_interrupt level h)
unfolding trigger_external_interrupt
trigger-IsValid level h valid =
    let word = valid.words mip in
    switch_cases IsValid level _ _
      ((λ _. store-IsValid h mip _ valid (omega arith) refl)
        also (λ _. store-IsValid h mip _ valid (omega arith) refl)
        also (λ _. store-IsValid h mip _ valid (omega arith) refl)
        also no_more)
      valid

pub clear-IsValid : (level : ℕ) (h : Hart) → IsValid h → IsValid (clear_external_interrupt level h)
unfolding clear_external_interrupt
clear-IsValid level h valid =
    let word = valid.words mip in
    switch_cases IsValid level _ _
      ((λ _. store-IsValid h mip _ valid (omega arith) refl)
        also (λ _. store-IsValid h mip _ valid (omega arith) refl)
        also (λ _. store-IsValid h mip _ valid (omega arith) refl)
        also no_more)
      valid

pub timer-IsValid :
    (status : Bool) (h : Hart) → IsValid h → IsValid (trigger_timer_interrupt status h)
unfolding trigger_timer_interrupt
timer-IsValid status h valid = store-IsValid h mip _ valid (omega (arith, valid.words mip)) refl

pub software-IsValid :
    (status : Bool) (h : Hart) → IsValid h → IsValid (trigger_software_interrupt status h)
unfolding trigger_software_interrupt
software-IsValid status h valid = store-IsValid h mip _ valid (omega (arith, valid.words mip)) refl
