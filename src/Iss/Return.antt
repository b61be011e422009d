-- ===== src/Iss/Return.antt =====
-- Entering a trap handler and returning from it.
use symex_vp.Common.{ℕ, ◌≤◌, ◌%◌, ◌≡◌, refl, arith, [], ◌∷◌, switch}
use symex_vp.Csr.Fields.{Field, get, put, uie, sie, mie_flag, spie, mpie, spp, mpp}
use symex_vp.Csr.Register.{mstatus}
use symex_vp.Iss.Hart.{
  Hart, returned, machine_mode, supervisor_mode, user_mode, release_lr_sc_reservation,
}
use symex_vp.Iss.Trap.{switch_to_trap_handler, return_from_trap_handler}

-- The mode `t` may handle a trap of the hart: it is a mode at or above the hart's.
pub data Handles (h : Hart) : ℕ → Type 0 where
  in_machine : h.prv ≤ 3 → Handles h machine_mode
  in_supervisor : h.prv ≤ 1 → Handles h supervisor_mode
  in_user : h.prv ≡ 0 → Handles h user_mode

-- The interrupt enable of a mode.
unfoldable pub enable : ℕ → Field
unfolding switch
enable t = switch t ((machine_mode, mie_flag) ∷ (supervisor_mode, sie) ∷ []) uie

-- What the handler sees and what the hart resumes with.
pub record IsResumed (t : ℕ) (h handler resumed : Hart) : Type 0 where
  pub masked : get (enable t) (handler.csrs mstatus) ≡ 0
  pub privileged : handler.prv ≡ t
  pub same_mode : resumed.prv ≡ h.prv
  pub same_pc : resumed.pc ≡ h.pc
  pub same_enable : get (enable t) (resumed.csrs mstatus) ≡ get (enable t) (h.csrs mstatus)

machine_saved : (p a s : ℕ) → get mpie (put mpp p (put mie_flag 0 (put mpie a s))) ≡ a % 2
machine_saved p a s = omega arith

machine_restored : (p a s : ℕ) → get mie_flag (put mpp p (put mpie 1 (put mie_flag a s))) ≡ a % 2
machine_restored p a s = omega arith

supervisor_saved : (p a s : ℕ) → get spie (put spp p (put sie 0 (put spie a s))) ≡ a % 2
supervisor_saved p a s = omega arith

supervisor_restored : (p a s : ℕ) → get sie (put spp p (put spie 1 (put sie a s))) ≡ a % 2
supervisor_restored p a s = omega arith

-- For each mode that may handle a trap of the hart: the handler is entered in that mode with its
-- interrupts disabled, and the return from it gives back the mode, the program counter and the
-- interrupt enable that the hart had.
pub switch-return :
    (h : Hart) (t : ℕ)
    → Handles h t
    → (handler : Hart) × (resumed : Hart) × (switch_to_trap_handler t h ≡ returned handler)
      × (return_from_trap_handler t handler ≡ returned resumed)
      × IsResumed t h handler resumed
unfolding switch_to_trap_handler return_from_trap_handler release_lr_sc_reservation switch enable
switch-return h t (in_machine le) = (
  _,
  _,
  refl,
  refl,
  record {
    masked = omega arith;
    privileged = refl;
    same_mode = omega arith;
    same_pc = refl;
    same_enable = omega (
      arith,
      machine_restored _ _ _,
      machine_saved h.prv (get mie_flag (h.csrs mstatus)) (h.csrs mstatus),
    );
  },
)
switch-return h t (in_supervisor le) = (
  _,
  _,
  refl,
  refl,
  record {
    masked = omega arith;
    privileged = refl;
    same_mode = omega arith;
    same_pc = refl;
    same_enable = omega (
      arith,
      supervisor_restored _ _ _,
      supervisor_saved h.prv (get sie (h.csrs mstatus)) (h.csrs mstatus),
    );
  },
)
switch-return h t (in_user le) = (
  _,
  _,
  refl,
  refl,
  record {
    masked = omega arith;
    privileged = refl;
    same_mode = omega arith;
    same_pc = refl;
    same_enable = omega arith;
  },
)
