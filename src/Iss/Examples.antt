-- ===== src/Iss/Examples.antt =====
-- The theorems on traps, interrupts and register accesses at a concrete hart, and tests.
use symex_vp.Common.{ℕ, ◌≡◌, refl, false, true, ◌==◌, if◌then◌else◌, inl, inr, arith, switch, flag}
use symex_vp.Csr.Register.{index, mstatus, misa, medeleg, mie, mtvec}
use symex_vp.Csr.Lower.{sstatus_addr}
use symex_vp.Csr.Masks.{sstatus_mask}
use symex_vp.Iss.Hart.{Hart, returned, supervisor_mode}
use symex_vp.Iss.Trap.{
  switch_to_trap_handler, return_from_trap_handler, compute_pending_interrupts, take_trap,
  trigger_timer_interrupt, interrupt_code,
}
use symex_vp.Iss.Return.{IsResumed, in_machine, switch-return}
use symex_vp.Iss.Priority.{IsFirst, interrupt_code-IsFirst, OnlyInterrupts}
use symex_vp.Iss.Pending.{IsSelection, HasWords, compute_pending_interrupts-IsSelection}
use symex_vp.Iss.Exception.{IsHandled, take_trap-IsHandled}
use symex_vp.Iss.Rights.{is_invalid_csr_access, is_hpmcounter}
use symex_vp.Iss.Write.{set_csr_value, masked}
use symex_vp.Iss.Invariant.{IsValid}
use symex_vp.Iss.Isolated.{Isolated}
use symex_vp.Iss.Isolation.{set_csr_value-Isolated}
use symex_vp.Iss.Reach.{Reaches, start, next, timer, Reaches-IsValid}

-- A hart in S with the machine timer interrupt enabled and pages faults delegated.
abbrev hart : Hart
hart = record {
  csrs = λ r.
      if index r == index mstatus
      then 0x8
      else (if index r == index misa
          then 0x40141125
          else (if index r == index medeleg
              then 0xb000
              else (if index r == index mie
                  then 0x888
                  else (if index r == index mtvec then 0x80000100 else 0))));
  prv = supervisor_mode;
  pc = 0x80000204;
  last_pc = 0x80000200;
  instr = 0x30200073;
  lr_sc_counter = 0;
  bus_lock = record { locked = false; owner = 0 };
  cycle_counter = 0;
  cycle_time = 10;
}

hart-IsValid : IsValid hart
unfolding OnlyInterrupts flag
hart-IsValid = record {
  words = λ r. ground arith;
  interrupts = (omega arith, refl, refl, refl);
  mode = omega arith;
  pc_word = omega arith;
  last_pc_word = omega arith;
}

-- The timer goes off.
rings : Reaches hart (trigger_timer_interrupt true hart)
rings = next start (timer true)

switch-return_example :
    (handler : Hart) × (resumed : Hart) × (switch_to_trap_handler 3 hart ≡ returned handler)
    × (return_from_trap_handler 3 handler ≡ returned resumed)
    × IsResumed 3 hart handler resumed
switch-return_example = switch-return hart 3 (in_machine (omega arith))

interrupt_code-IsFirst_example :
    (code : ℕ) × (interrupt_code 0x88 ≡ returned code) × IsFirst 0x88 code
unfolding OnlyInterrupts flag
interrupt_code-IsFirst_example =
    interrupt_code-IsFirst 0x88 (omega arith, refl, refl, refl) (λ e. absurd (omega arith))

hart-HasWords : HasWords hart
hart-HasWords = record {
  mie_word = omega arith;
  mip_word = omega arith;
  mideleg_word = omega arith;
  sideleg_word = omega arith;
}

compute_pending_interrupts-IsSelection_example : IsSelection hart (compute_pending_interrupts hart)
compute_pending_interrupts-IsSelection_example =
    compute_pending_interrupts-IsSelection hart hart-HasWords

take_trap-IsHandled_example :
    (h' : Hart) × (take_trap (record { reason = 13; mtval = 0x1000 }) hart ≡ returned h')
    × IsHandled (record { reason = 13; mtval = 0x1000 }) hart h'
take_trap-IsHandled_example =
    take_trap-IsHandled hart (record { reason = 13; mtval = 0x1000 }) (inr (inl refl)) (omega arith)
      (omega arith)

set_csr_value-Isolated_example : Isolated hart (masked mstatus sstatus_mask 0x22 hart)
unfolding set_csr_value switch is_hpmcounter is_invalid_csr_access
set_csr_value-Isolated_example =
    set_csr_value-Isolated sstatus_addr 0x22 hart (masked mstatus sstatus_mask 0x22 hart)
      hart-IsValid (omega arith) refl refl

Reaches-IsValid_example : IsValid (trigger_timer_interrupt true hart)
Reaches-IsValid_example =
    Reaches-IsValid hart (trigger_timer_interrupt true hart) hart-IsValid rings
