-- ===== src/Iss/Trap.antt =====
-- Traps and interrupts of a hart: the functions of vp/src/core/rv32/iss.cpp between
-- `return_from_trap_handler` and `switch_to_trap_handler`, composed as `run_step` does.
use symex_vp.Common.{
  ℕ, ◌+◌, ◌*◌, ◌^◌, Bool, ◌&&◌, ◌||◌, not, ◌==◌, ltb, leb, if◌then◌else◌, truth, u32, bit_and,
  not32, shl32, [], ◌∷◌, switch,
}
use symex_vp.Csr.Fields.{
  get, put, uie, sie, mie_flag, upie, spie, mpie, spp, mpp, usip, ssip, msip, utip, stip, mtip,
  ueip, seip, meip, exception_code, interrupt, mode, base, has_extension, u_extension,
}
use symex_vp.Csr.Register.{
  mstatus, misa, medeleg, mideleg, mie, mip, mtvec, mepc, mcause, mtval, sedeleg, sideleg, stvec,
  sepc, scause, stval, utvec, uepc, ucause, utval, Register,
}
use symex_vp.Iss.Hart.{
  Hart, SimulationTrap, Result, returned, raised, aborted, machine_mode, supervisor_mode, user_mode,
  none_mode, store, release_lr_sc_reservation,
}

unfoldable pub return_from_trap_handler : ℕ → Hart → Result Hart
return_from_trap_handler return_mode h =
    let status = h.csrs mstatus in
    switch return_mode
      ((
        machine_mode,
        (let restored = put mpie 1 (put mie_flag (get mpie status) status) in
            let previous =
              if has_extension (h.csrs misa) u_extension then user_mode else machine_mode in
            returned (
              store mstatus (put mpp previous restored)
                (record h { prv = get mpp status; pc = h.csrs mepc }))),
      )
        ∷ (
          supervisor_mode,
          (let restored = put spie 1 (put sie (get spie status) status) in
              let previous =
                if has_extension (h.csrs misa) u_extension then user_mode else supervisor_mode in
              returned (
                store mstatus (put spp previous restored)
                  (record h { prv = get spp status; pc = h.csrs sepc }))),
        )
        ∷ (
          user_mode,
          (let restored = put upie 1 (put uie (get upie status) status) in
              returned (store mstatus restored (record h { prv = user_mode; pc = h.csrs uepc }))),
        )
        ∷ [])
      aborted

unfoldable pub trigger_external_interrupt : ℕ → Hart → Hart
trigger_external_interrupt level h =
    switch level
      ((user_mode, store mip (put ueip 1 (h.csrs mip)) h)
        ∷ (supervisor_mode, store mip (put seip 1 (h.csrs mip)) h)
        ∷ (machine_mode, store mip (put meip 1 (h.csrs mip)) h)
        ∷ [])
      h

unfoldable pub clear_external_interrupt : ℕ → Hart → Hart
clear_external_interrupt level h =
    switch level
      ((user_mode, store mip (put ueip 0 (h.csrs mip)) h)
        ∷ (supervisor_mode, store mip (put seip 0 (h.csrs mip)) h)
        ∷ (machine_mode, store mip (put meip 0 (h.csrs mip)) h)
        ∷ [])
      h

unfoldable pub trigger_timer_interrupt : Bool → Hart → Hart
trigger_timer_interrupt status h = store mip (put mtip (if status then 1 else 0) (h.csrs mip)) h

unfoldable pub trigger_software_interrupt : Bool → Hart → Hart
trigger_software_interrupt status h = store mip (put msip (if status then 1 else 0) (h.csrs mip)) h

-- The cause and value registers of the handler's mode, from the exception.
abbrev pub set_cause : Register → ℕ → ℕ → Hart → Hart
set_cause cause flag code h =
    store cause (put exception_code code (put interrupt flag (h.csrs cause))) h

-- The state at the instruction that trapped, with its cause in the registers of the mode that handles
-- it, and that mode; `aborted` when `boost::lexical_cast` refuses a value of more than 32 bits, and by
-- the assertion that a hart below S is in U.
unfoldable pub prepare_trap : SimulationTrap → Hart → Result (Hart × ℕ)
prepare_trap e h =
    let at_instr = record h { pc = h.last_pc } in
    let exc_bit = shl32 1 e.reason in
    if leb (2 ^ 32) e.mtval
    then aborted
    else (if (h.prv == machine_mode) || not (truth (bit_and exc_bit (h.csrs medeleg)))
        then returned (store mtval e.mtval (set_cause mcause 0 e.reason at_instr), machine_mode)
        else (if (h.prv == supervisor_mode) || not (truth (bit_and exc_bit (h.csrs sedeleg)))
            then returned
                (store stval e.mtval (set_cause scause 0 e.reason at_instr), supervisor_mode)
            else (if h.prv == user_mode
                then returned
                    (store utval e.mtval (set_cause ucause 0 e.reason at_instr), user_mode)
                else aborted)))

pub record PendingInterrupts : Type 0 where
  pub target_mode : ℕ
  pub pending : ℕ

unfoldable pub compute_pending_interrupts : Hart → PendingInterrupts
compute_pending_interrupts h =
    let pending = bit_and (h.csrs mie) (h.csrs mip) in
    let m_pending = bit_and pending (not32 (h.csrs mideleg)) in
    let delegated = bit_and pending (h.csrs mideleg) in
    let s_pending = bit_and delegated (not32 (h.csrs sideleg)) in
    let u_pending = bit_and delegated (h.csrs sideleg) in
    let status = h.csrs mstatus in
    if not (truth pending)
    then record { target_mode = none_mode; pending = 0 }
    else (if truth m_pending
          && (ltb h.prv machine_mode || ((h.prv == machine_mode) && truth (get mie_flag status)))
        then record { target_mode = machine_mode; pending = m_pending }
        else (if truth s_pending
              && (ltb h.prv supervisor_mode
                  || ((h.prv == supervisor_mode) && truth (get sie status)))
            then record { target_mode = supervisor_mode; pending = s_pending }
            else (if truth u_pending && ((h.prv == user_mode) && truth (get uie status))
                then record { target_mode = user_mode; pending = u_pending }
                else record { target_mode = none_mode; pending = 0 })))

-- The exception code of the interrupt that is taken among the pending ones; `aborted` is the source's
-- "some pending interrupt must be available here".
unfoldable pub interrupt_code : ℕ → Result ℕ
interrupt_code x =
    if truth (get meip x)
    then returned 11
    else (if truth (get msip x)
        then returned 3
        else (if truth (get mtip x)
            then returned 7
            else (if truth (get seip x)
                then returned 9
                else (if truth (get ssip x)
                    then returned 1
                    else (if truth (get stip x)
                        then returned 5
                        else (if truth (get ueip x)
                            then returned 8
                            else (if truth (get usip x)
                                then returned 0
                                else (if truth (get utip x) then returned 4 else aborted))))))))

unfoldable pub record_interrupt : ℕ → ℕ → Hart → Result Hart
record_interrupt target_mode exc h =
    switch target_mode
      ((machine_mode, returned (set_cause mcause 1 exc h))
        ∷ (supervisor_mode, returned (set_cause scause 1 exc h))
        ∷ (user_mode, returned (set_cause ucause 1 exc h))
        ∷ [])
      aborted

unfoldable pub prepare_interrupt : PendingInterrupts → Hart → Result Hart
prepare_interrupt e h = elim (interrupt_code e.pending) [
  | returned exc ↦ record_interrupt e.target_mode exc h
  | raised t ↦ raised t
  | aborted ↦ aborted
]

-- The handler's address: the base, or for an interrupt in vectored mode the cause's entry.
abbrev pub handler_address : ℕ → ℕ → ℕ
handler_address tvec cause =
    if truth (get interrupt cause) && (get mode tvec == 1)
    then u32 (shl32 (get base tvec) 2 + 4 * get exception_code cause)
    else shl32 (get base tvec) 2

unfoldable pub switch_to_trap_handler : ℕ → Hart → Result Hart
switch_to_trap_handler target_mode h =
    let free = release_lr_sc_reservation h in
    let status = h.csrs mstatus in
    switch target_mode
      ((
        machine_mode,
        returned (
            store mstatus (put mpp h.prv (put mie_flag 0 (put mpie (get mie_flag status) status))) (
              store mepc h.pc (record free {
                prv = target_mode;
                pc = handler_address (h.csrs mtvec) (h.csrs mcause);
              }))),
      )
        ∷ (
          supervisor_mode,
          returned (
              store mstatus (put spp h.prv (put sie 0 (put spie (get sie status) status))) (
                store sepc h.pc (record free {
                  prv = target_mode;
                  pc = handler_address (h.csrs stvec) (h.csrs scause);
                }))),
        )
        ∷ (
          user_mode,
          returned (
              store mstatus (put uie 0 (put upie (get uie status) status)) (
                store uepc h.pc (record free {
                  prv = target_mode;
                  pc = handler_address (h.csrs utvec) (h.csrs ucause);
                }))),
        )
        ∷ [])
      aborted

-- What `run_step` does after an instruction that did not trap.
unfoldable pub take_interrupt : Hart → Result Hart
take_interrupt h =
    let x = compute_pending_interrupts h in
    if x.target_mode == none_mode then returned h else elim (prepare_interrupt x h) [
      | returned h' ↦ switch_to_trap_handler x.target_mode h'
      | raised t ↦ raised t
      | aborted ↦ aborted
    ]

-- What `run_step` does with a trap that the instruction raised.
unfoldable pub take_trap : SimulationTrap → Hart → Result Hart
take_trap e h = elim (prepare_trap e h) [
  | returned (h', target_mode) ↦ switch_to_trap_handler target_mode h'
  | raised t ↦ raised t
  | aborted ↦ aborted
]
