-- ===== src/Core/Execute/System.antt =====
-- The accesses to control and status registers and the system instructions in `ISS::exec_step`.
use symex_vp.Common.{
  ℕ, Bool, true, ◌&&◌, not, ◌!=◌, if◌then◌else◌, truth, bit_and, bit_or, not32, switch, [], ◌∷◌,
  Option, none, some,
}
use symex_vp.Csr.Fields.{get, tw, has_extension, s_extension}
use symex_vp.Csr.Register.{mstatus, misa, mie, mip}
use symex_vp.Instr.Fields
use symex_vp.Instr.Mapping.{
  Mapping, fence, fence_i, ecall, ebreak, csrrw, csrrs, csrrc, csrrwi, csrrsi, csrrci, wfi, mret,
}
use symex_vp.Iss.Hart.{
  Hart, Result, returned, raised, aborted, machine_mode, supervisor_mode, user_mode, s_mode, u_mode,
  release_lr_sc_reservation,
}
use symex_vp.Iss.Action.{Action, raise_trap, abort, skip, modify, raise_if, ◌>>=◌, ◌>>◌}
use symex_vp.Iss.Rights.{is_invalid_csr_access, exc_illegal_instr}
use symex_vp.Iss.Read.{get_csr_value}
use symex_vp.Iss.Write.{set_csr_value}
use symex_vp.Iss.Trap.{return_from_trap_handler}
use symex_vp.Core.Clover.{Clover}
use symex_vp.Core.State.{State, hit_breakpoint, on_hart}
use symex_vp.Core.Interface.{Environment}
use symex_vp.Core.RegFile
use symex_vp.Core.Operands.{rd, write_rd, illegal}

abbrev pub exc_ecall_u_mode : ℕ
exc_ecall_u_mode = 8

abbrev pub exc_ecall_s_mode : ℕ
exc_ecall_s_mode = 9

abbrev pub exc_ecall_m_mode : ℕ
exc_ecall_m_mode = 11

module _ {V : Type 0} {D : Type 0} where
  -- A function of the hart as an action of the whole.
  unfoldable pub with_hart : (Hart → Result Hart) → Action (State V D) (Unit {0})
  with_hart f s = elim (f s.hart) [
    | returned h ↦ (returned tt, record s { hart = h })
    | raised t ↦ (raised t, s)
    | aborted ↦ (aborted, s)
  ]

  unfoldable pub read_csr : Environment (State V D) → ℕ → Action (State V D) ℕ
  read_csr env addr s = elim (get_csr_value (env.update_and_get_mtime s) addr s.hart) [
    | returned (h, value) ↦ (returned value, record s { hart = h })
    | raised t ↦ (raised t, s)
    | aborted ↦ (aborted, s)
  ]

  unfoldable pub check_access : ℕ → Bool → Action (State V D) Bool
  check_access addr is_write s = (is_invalid_csr_access addr is_write s.hart, s)

module _ (k : Clover) {D : Type 0} (env : Environment (State k.Value D)) where
  -- `if (rd != RegFile::zero) regs.write(RD, …)`
  unfoldable pub write_old : ℕ → Action (State k.Value D) (Unit {0})
  unfolding write_rd
  write_old value s = (if rd k s != 0 then write_rd k (k.bvc value) else skip) s

  -- CSRRW and CSRRWI: the register is read only for a destination, and written always.
  unfoldable pub swap_csr : (State k.Value D → ℕ) → Action (State k.Value D) (Unit {0})
  unfolding check_access read_csr write_old with_hart
  swap_csr operand s =
      let addr = Fields.csr s.hart.instr in
      let value = operand s in
      (check_access addr true >>= λ invalid.
      if invalid
      then illegal k
      else ((if rd k s != 0 then (read_csr env addr >>= write_old) else skip)
          >> with_hart (set_csr_value addr value)))
        s

  -- CSRRS, CSRRC and their immediate forms: the register is read always, and written when the operand
  -- is not the register x0 or the immediate 0.
  unfoldable pub update_csr :
      (State k.Value D → Bool)
      → (State k.Value D → ℕ)
      → (ℕ → ℕ → ℕ)
      → Action (State k.Value D) (Unit {0})
  unfolding check_access read_csr write_old with_hart
  update_csr writes operand combine s =
      let addr = Fields.csr s.hart.instr in
      let write = writes s in
      let value = operand s in
      (check_access addr write >>= λ invalid.
      if invalid
      then illegal k
      else (read_csr env addr >>= λ csr_val.
          write_old csr_val
          >> (if write then with_hart (set_csr_value addr (combine csr_val value)) else skip)))
        s

  abbrev pub rs1_value : State k.Value D → ℕ
  rs1_value s = k.concrete (RegFile.element k s.regs (Fields.rs1 s.hart.instr))

  abbrev pub rs1_given : State k.Value D → Bool
  rs1_given s = Fields.rs1 s.hart.instr != 0

  abbrev pub zimm : State k.Value D → ℕ
  zimm s = Fields.zimm s.hart.instr

  abbrev pub clear_bits : ℕ → ℕ → ℕ
  clear_bits a b = bit_and a (not32 b)

  unfoldable pub environment_call : Action (State k.Value D) (Unit {0})
  environment_call s =
      switch s.hart.prv
        ((machine_mode, raise_trap exc_ecall_m_mode s.hart.last_pc)
          ∷ (supervisor_mode, raise_trap exc_ecall_s_mode s.hart.last_pc)
          ∷ (user_mode, raise_trap exc_ecall_u_mode s.hart.last_pc)
          ∷ [])
        abort s

  unfoldable pub wait_for_interrupt : Action (State k.Value D) (Unit {0})
  wait_for_interrupt = modify (on_hart release_lr_sc_reservation) >> λ s.
      (raise_if (s_mode s.hart && truth (get tw (s.hart.csrs mstatus))) exc_illegal_instr
            s.hart.instr
          >> (raise_if (u_mode s.hart && has_extension (s.hart.csrs misa) s_extension)
                exc_illegal_instr s.hart.instr
              >> modify (λ t.
                if not t.ignore_wfi && not (truth (bit_and (t.hart.csrs mie) (t.hart.csrs mip)))
                then env.wait_for_event t
                else t)))
        s

  unfoldable pub execute_system : Mapping → Option (Action (State k.Value D) (Unit {0}))
  unfolding swap_csr update_csr environment_call wait_for_interrupt with_hart
  execute_system fence = some skip
  execute_system fence_i = some skip
  execute_system ecall = some environment_call
  execute_system ebreak = some (modify (λ s. record s { status = hit_breakpoint }))
  execute_system csrrw = some (swap_csr rs1_value)
  execute_system csrrs = some (update_csr rs1_given rs1_value bit_or)
  execute_system csrrc = some (update_csr rs1_given rs1_value clear_bits)
  execute_system csrrwi = some (swap_csr zimm)
  execute_system csrrsi = some (update_csr (λ s. zimm s != 0) zimm bit_or)
  execute_system csrrci = some (update_csr (λ s. zimm s != 0) zimm clear_bits)
  execute_system wfi = some wait_for_interrupt
  execute_system mret = some (with_hart (return_from_trap_handler machine_mode))
  execute_system op = none
