-- ===== src/Iss/Interrupt.antt =====
-- The interrupts that `run_step` takes after an instruction.
use symex_vp.Common.{
  ℕ, ◌≤◌, ◌<◌, ◌≡◌, refl, sym, ap, ◌∙◌, Bool, true, false, ◌&&◌, ◌||◌, ◌==◌, ltb, flag, flag-le,
  ==→eq, [], ◌∷◌, switch, arith, ◌⊎◌, inl, inr, not, leb,
}
use symex_vp.Csr.Fields.{get, interrupt, exception_code}
use symex_vp.Csr.Register.{Register, mcause, scause, ucause, mepc, sepc, uepc, mie}
use symex_vp.Iss.Hart.{
  Hart, Result, returned, machine_mode, supervisor_mode, user_mode, none_mode,
  release_lr_sc_reservation,
}
use symex_vp.Iss.Trap.{
  interrupt_code, compute_pending_interrupts, record_interrupt, prepare_interrupt,
  switch_to_trap_handler, take_interrupt,
}
use symex_vp.Iss.Pending.{
  HasWords, level, is_deliverable, is_pending, enabled_at, IsSelection, nothing, selected,
  compute_pending_interrupts-IsSelection,
}
use symex_vp.Iss.Priority.{rank, OnlyInterrupts, interrupt_code-IsFirst, rank-lt}

unfoldable pub cause_of : ℕ → Register
unfolding switch
cause_of t = switch t ((machine_mode, mcause) ∷ (supervisor_mode, scause) ∷ []) ucause

unfoldable pub epc_of : ℕ → Register
unfolding switch
epc_of t = switch t ((machine_mode, mepc) ∷ (supervisor_mode, sepc) ∷ []) uepc

-- Interrupt `j` goes before interrupt `i`: a higher mode handles it, or the same mode and it has the
-- higher priority.
abbrev pub outranks : Hart → ℕ → ℕ → Bool
outranks h j i = ltb (level h i) (level h j) || ((level h j == level h i) && ltb (rank j) (rank i))

-- What `r` is for the hart `h`: unchanged when no interrupt is deliverable; or the entry of the
-- handler for the deliverable interrupt that no other outranks, in the mode that it is delegated to.
pub data IsTaken (h : Hart) (r : Result Hart) : Type 0 where
  none_taken : r ≡ returned h → ((i : ℕ) → is_deliverable h i ≡ false) → IsTaken h r
  entered :
      (code : ℕ) (h' : Hart)
      → r ≡ returned h'
      → is_deliverable h code ≡ true
      → ((j : ℕ) → (is_deliverable h j && outranks h j code) ≡ false)
      → h'.prv ≡ level h code
      → get interrupt (h'.csrs (cause_of (level h code))) ≡ 1
      → get exception_code (h'.csrs (cause_of (level h code))) ≡ code
      → h'.csrs (epc_of (level h code)) ≡ h.pc
      → IsTaken h r

-- The handler of the mode `t` is entered for interrupt `code`.
unfoldable Enters : Hart → ℕ → ℕ → Type 0
Enters h t code =
    (h1 : Hart) × (h' : Hart) × (record_interrupt t code h ≡ returned h1)
    × (switch_to_trap_handler t h1 ≡ returned h')
    × (h'.prv ≡ t)
    × (get interrupt (h'.csrs (cause_of t)) ≡ 1)
    × (get exception_code (h'.csrs (cause_of t)) ≡ code)
    × (h'.csrs (epc_of t) ≡ h.pc)

enters_lem :
    (h : Hart) (t code : ℕ)
    → ((t ≡ machine_mode) ⊎ ((t ≡ supervisor_mode) ⊎ (t ≡ user_mode)))
    → code < 12
    → Enters h t code
unfolding Enters record_interrupt switch_to_trap_handler switch cause_of epc_of
    release_lr_sc_reservation
enters_lem h t code (inl e) lt = rw e (_, _, refl, refl, refl, omega arith, omega arith, refl)
enters_lem h t code (inr (inl e)) lt = rw e (_, _, refl, refl, refl, omega arith, omega arith, refl)
enters_lem h t code (inr (inr e)) lt = rw e (_, _, refl, refl, refl, omega arith, omega arith, refl)

-- The selected interrupts are among the nine of the machine when the enabled ones are.
only_lem :
    (h : Hart) (x : ℕ) (t : ℕ)
    → OnlyInterrupts (h.csrs mie)
    → x ≤ h.csrs mie
    → ((i : ℕ) → (flag i x == 1) ≡ (is_pending h i && (level h i == t)))
    → OnlyInterrupts x
unfolding OnlyInterrupts
only_lem h x t (small, c2, c6, c10) le flags = (
  omega arith,
  ground (arith, flags 2, flag-le 2 x),
  ground (arith, flags 6, flag-le 6 x),
  ground (arith, flags 10, flag-le 10 x),
)

both_true : (a b : Bool) → (a && b) ≡ true → (a ≡ true) × (b ≡ true)
both_true a b h = (ground (arith, h), ground (arith, h))

flag_target :
    (h : Hart) (x t code : ℕ)
    → ((i : ℕ) → (flag i x == 1) ≡ (is_pending h i && (level h i == t)))
    → flag code x ≡ 1
    → (is_pending h code ≡ true) × (level h code ≡ t)
flag_target h x t code flags e =
    let (p, same) =
      both_true (is_pending h code) (level h code == t) (sym (flags code) ∙ ap (λ b. b == 1) e) in
    (p, ==→eq (level h code) t same)

outranked :
    (p e f r : Bool) (lj lc : ℕ)
    → f ≡ (p && (lj == lc))
    → ((p && e) && not (leb lj lc)) ≡ false
    → (f && r) ≡ false
    → ((p && e) && (ltb lc lj || ((lj == lc) && r))) ≡ false
outranked p e f r lj lc same top first = ground arith

-- No deliverable interrupt outranks the first of the selected ones.
first_lem :
    (h : Hart) (x code : ℕ)
    → ((i : ℕ) → (flag i x == 1) ≡ (is_pending h i && (level h i == level h code)))
    → ((i : ℕ) → (is_deliverable h i && not (leb (level h i) (level h code))) ≡ false)
    → ((j : ℕ) → ((flag j x == 1) && ltb (rank j) (rank code)) ≡ false)
    → (j : ℕ) → (is_deliverable h j && outranks h j code) ≡ false
first_lem h x code flags top first j =
    outranked (is_pending h j) (enabled_at h (level h j)) (flag j x == 1) (ltb (rank j) (rank code))
      (level h j) (level h code) (flags j) (top j) (first j)

take_lem :
    (h h1 h' : Hart) (code : ℕ)
    → ((compute_pending_interrupts h).target_mode == none_mode) ≡ false
    → interrupt_code (compute_pending_interrupts h).pending ≡ returned code
    → record_interrupt (compute_pending_interrupts h).target_mode code h ≡ returned h1
    → switch_to_trap_handler (compute_pending_interrupts h).target_mode h1 ≡ returned h'
    → take_interrupt h ≡ returned h'
unfolding take_interrupt prepare_interrupt
take_lem h h1 h' code some_target e recorded switched = rw (some_target, e, recorded, switched) refl

none_lem :
    (h : Hart)
    → (compute_pending_interrupts h).target_mode ≡ none_mode
    → take_interrupt h ≡ returned h
unfolding take_interrupt
none_lem h target = rw target refl

mode_cases :
    (h : Hart) (i t : ℕ)
    → level h i ≡ t
    → ((t ≡ machine_mode) ⊎ ((t ≡ supervisor_mode) ⊎ (t ≡ user_mode)))
mode_cases h i t e = ground arith

not_none : (h : Hart) (i t : ℕ) → level h i ≡ t → (t == none_mode) ≡ false
not_none h i t e = ground arith

selected_lem :
    (h : Hart)
    → OnlyInterrupts (h.csrs mie)
    → IsSelection h (compute_pending_interrupts h)
    → IsTaken h (take_interrupt h)
unfolding Enters
selected_lem h only (nothing target none) = none_taken (none_lem h target) none
selected_lem h only (selected on some_set le flags top) =
    let x = compute_pending_interrupts h in
    let (code, e, first) =
      interrupt_code-IsFirst x.pending (only_lem h x.pending x.target_mode only le flags)
        some_set in
    let (p, target) = flag_target h x.pending x.target_mode code flags first.is_set in
    let (h1, h', recorded, switched, prv, int, exc, epc) =
      enters_lem h x.target_mode code (mode_cases h code x.target_mode target)
        (rank-lt code first.ranked) in
    entered code h'
      (take_lem h h1 h' code (not_none h code x.target_mode target) e recorded switched)
      (ap (λ b. b && enabled_at h (level h code)) p ∙ ap (enabled_at h) target ∙ on)
      (first_lem h x.pending code
        (λ i. flags i ∙ ap (λ t. is_pending h i && (level h i == t)) (sym target))
        (λ i. ap (λ t. is_deliverable h i && not (leb (level h i) t)) target ∙ top i)
        first.none_before)
      (prv ∙ sym target) (ap (λ t. get interrupt (h'.csrs (cause_of t))) target ∙ int)
      (ap (λ t. get exception_code (h'.csrs (cause_of t))) target ∙ exc)
      (ap (λ t. h'.csrs (epc_of t)) target ∙ epc)

-- After an instruction, the hart takes the interrupt that is enabled, pending and let through by the
-- mode it is delegated to, of the highest such mode and there of the highest priority: the handler of
-- that mode is entered with the interrupt as its cause and the hart's program counter to return to.
-- The hart goes on unchanged exactly when there is none; the simulation never fails here.
pub take_interrupt-IsTaken :
    (h : Hart) → HasWords h → OnlyInterrupts (h.csrs mie) → IsTaken h (take_interrupt h)
take_interrupt-IsTaken h w only = selected_lem h only (compute_pending_interrupts-IsSelection h w)
