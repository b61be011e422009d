-- ===== src/Iss/Reach.antt =====
-- The states that a hart reaches, and what holds of all of them.
use symex_vp.Common.{
  ℕ, ◌<◌, ◌^◌, ◌≡◌, refl, Bool, true, false, truth, if◌then◌else◌, if_cases, switch_cases, no_more,
  ◌also◌, arith, not, none, some, Option,
}
use mathlib.Core.Path.{subst}
use symex_vp.Csr.Fields.{get, tvm}
use symex_vp.Csr.Register.{
  Register, mstatus, time_low, time_high, cycle_low, cycle_high, register_mapping,
}
use symex_vp.Iss.Hart.{Hart, SimulationTrap, Result, returned, raised, aborted, store, machine_mode}
use symex_vp.Iss.Trap.{
  take_trap, take_interrupt, return_from_trap_handler, trigger_external_interrupt,
  clear_external_interrupt, trigger_timer_interrupt, trigger_software_interrupt,
}
use symex_vp.Iss.Rights.{
  raise_illegal_instruction, is_hpmcounter, validate_csr_counter_read_access_rights,
}
use symex_vp.Iss.Read.{
  get_csr_value, default_read, low_word, high_word, with_time, with_cycle,
  compute_and_get_current_cycles,
}
use symex_vp.Iss.Write.{set_csr_value}
use symex_vp.Iss.Invariant.{IsValid, Returns, store-IsValid, set_csr_value-IsValid}
use symex_vp.Iss.Steps.{
  return-IsValid, take_trap-IsValid, take_interrupt-IsValid, trigger-IsValid, clear-IsValid,
  timer-IsValid, software-IsValid,
}

-- A read keeps the invariant: it only brings the counters up to date.
abbrev Read : Result (Hart × ℕ) → Type 0
Read (returned (h, v)) = IsValid h
Read (raised t) = true ≡ true
Read aborted = true ≡ true

default-Read : (h : Hart) (addr : ℕ) → IsValid h → Read (default_read h addr)
unfolding default_read
default-Read h addr valid = go (register_mapping addr)
  where
    go :
        (o : Option Register)
        → Read (elim o [ none ↦ raise_illegal_instruction h | some r ↦ returned (h, h.csrs r) ])
    go none = refl
    go (some r) = valid

satp-Read :
    (trapped : Bool) (addr : ℕ) (h : Hart)
    → IsValid h
    → Read (if trapped then raise_illegal_instruction h else default_read h addr)
satp-Read true addr h valid = refl
satp-Read false addr h valid = default-Read h addr valid

pub get_csr_value-Read : (mtime addr : ℕ) (h : Hart) → IsValid h → Read (get_csr_value mtime addr h)
unfolding get_csr_value
get_csr_value-Read mtime addr h valid =
    let timed : IsValid (with_time h mtime) =
      store-IsValid (store time_low (low_word mtime) h) time_high (high_word mtime)
        (store-IsValid h time_low (low_word mtime) valid (omega arith) refl) (omega arith) refl in
    let n = compute_and_get_current_cycles h in
    let cycled : IsValid (with_cycle h) =
      store-IsValid (store cycle_low (low_word n) h) cycle_high (high_word n)
        (store-IsValid h cycle_low (low_word n) valid (omega arith) refl) (omega arith) refl in
    if_cases Read (not (validate_csr_counter_read_access_rights addr h)) _ _ (λ _. refl)
      (λ _.
        if_cases Read (is_hpmcounter addr) _ _ (λ _. valid)
          (λ _.
            switch_cases Read addr _ _
              ((λ _. timed)
                also (λ _. timed)
                also (λ _. timed)
                also (λ _. timed)
                also (λ _. cycled)
                also (λ _. cycled)
                also (λ _. valid)
                also (λ _. valid)
                also (λ _. valid)
                also (λ _. valid)
                also (λ _. valid)
                also (λ _. valid)
                also (λ _. valid)
                also (λ _. valid)
                also (λ _. valid)
                also (λ _. valid)
                also (λ _. valid)
                also (λ _. satp-Read (truth (get tvm (h.csrs mstatus))) addr h valid)
                also (λ _. valid)
                also (λ _. valid)
                also (λ _. valid)
                also (λ _. valid)
                also (λ _. valid)
                also (λ _. valid)
                also (λ _. valid)
                also (λ _. valid)
                also (λ _. valid)
                also (λ _. valid)
                also (λ _. valid)
                also no_more)
              (default-Read h addr valid)))

-- One step of a hart: an instruction that leaves the registers and the mode alone, one that reads or
-- writes a register or returns from M, a trap, an interrupt that is taken, or an interrupt line that
-- another component sets or clears.
pub data Step : Hart → Hart → Type 0 where
  executes :
      {h : Hart} (pc last_pc instr lr_sc_counter cycle_counter : ℕ)
      → pc < 2 ^ 32
      → last_pc < 2 ^ 32
      → Step h (record h {
        pc = pc;
        last_pc = last_pc;
        instr = instr;
        lr_sc_counter = lr_sc_counter;
        cycle_counter = cycle_counter;
      })
  reads :
      {h h' : Hart} (mtime addr v : ℕ) → get_csr_value mtime addr h ≡ returned (h', v) → Step h h'
  writes :
      {h h' : Hart} (addr value : ℕ)
      → value < 2 ^ 32
      → set_csr_value addr value h ≡ returned h'
      → Step h h'
  returns : {h h' : Hart} → return_from_trap_handler machine_mode h ≡ returned h' → Step h h'
  traps : {h h' : Hart} (e : SimulationTrap) → take_trap e h ≡ returned h' → Step h h'
  interrupts : {h h' : Hart} → take_interrupt h ≡ returned h' → Step h h'
  triggers : {h : Hart} (level : ℕ) → Step h (trigger_external_interrupt level h)
  clears : {h : Hart} (level : ℕ) → Step h (clear_external_interrupt level h)
  timer : {h : Hart} (status : Bool) → Step h (trigger_timer_interrupt status h)
  software : {h : Hart} (status : Bool) → Step h (trigger_software_interrupt status h)

pub data Reaches (h : Hart) : Hart → Type 0 where
  start : Reaches h h
  next : {h' h'' : Hart} → Reaches h h' → Step h' h'' → Reaches h h''

-- Every step keeps the invariant.
pub Step-IsValid : {h h' : Hart} → Step h h' → IsValid h → IsValid h'
Step-IsValid (executes pc last_pc _ _ _ small last_small) v = record {
  words = v.words;
  interrupts = v.interrupts;
  mode = v.mode;
  pc_word = small;
  last_pc_word = last_small;
}
Step-IsValid {h} (reads mtime addr value e) v = subst Read e (get_csr_value-Read mtime addr h v)
Step-IsValid {h} {h'} (writes addr value small e) v =
    set_csr_value-IsValid addr value h h' v small e
Step-IsValid {h} (returns e) v = subst (Returns IsValid) e (return-IsValid machine_mode h v)
Step-IsValid {h} (traps t e) v = subst (Returns IsValid) e (take_trap-IsValid t h v)
Step-IsValid {h} (interrupts e) v = subst (Returns IsValid) e (take_interrupt-IsValid h v)
Step-IsValid {h} (triggers level) v = trigger-IsValid level h v
Step-IsValid {h} (clears level) v = clear-IsValid level h v
Step-IsValid {h} (timer status) v = timer-IsValid status h v
Step-IsValid {h} (software status) v = software-IsValid status h v

-- The invariant holds of every state that a hart reaches from one with the invariant.
pub Reaches-IsValid : (h h' : Hart) → IsValid h → Reaches h h' → IsValid h'
Reaches-IsValid h h' v start = v
Reaches-IsValid h h' v (next r s) = Step-IsValid s (Reaches-IsValid h _ v r)
