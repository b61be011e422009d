-- ===== src/Core/Preserve/System.antt =====
-- The system instructions of vp/src/core/rv32/iss.cpp keep the register file.
use symex_vp.Common.{
  ℕ, Bool, true, false, ◌&&◌, not, ◌!=◌, if◌then◌else◌, truth, bit_and, bit_or, switch, [], ◌∷◌,
  switch_cases, ◌also◌, no_more,
}
use symex_vp.Csr.Fields.{get, tw, has_extension, s_extension}
use symex_vp.Csr.Register.{mstatus, misa, mie, mip}
use symex_vp.Instr.Fields
use symex_vp.Instr.Mapping.{
  Mapping, fence, fence_i, ecall, ebreak, csrrw, csrrs, csrrc, csrrwi, csrrsi, csrrci, wfi, mret,
}
use symex_vp.Iss.Hart.{
  Hart, Result, returned, raised, aborted, machine_mode, supervisor_mode, user_mode, s_mode, u_mode,
  release_lr_sc_reservation,
}
use symex_vp.Iss.Action.{Action, skip, modify, raise_if, raise_trap, abort, ◌>>=◌, ◌>>◌}
use symex_vp.Iss.Keeps.{
  Keeps, bind-Keeps, then-Keeps, if-Keeps, raise_if-Keeps, skip-Keeps, modify-Keeps, look-Keeps,
  AllKeep,
}
use symex_vp.Iss.Rights.{exc_illegal_instr}
use symex_vp.Iss.Read.{get_csr_value}
use symex_vp.Iss.Write.{set_csr_value}
use symex_vp.Iss.Trap.{return_from_trap_handler}
use symex_vp.Core.Clover.{Clover}
use symex_vp.Core.State.{State, on_hart, hit_breakpoint}
use symex_vp.Core.Interface.{Environment}
use symex_vp.Core.Registers.{Widths}
use symex_vp.Core.Operands.{rd, write_rd, illegal}
use symex_vp.Core.Execute.System.{
  with_hart, read_csr, check_access, write_old, swap_csr, update_csr, rs1_value, rs1_given, zimm,
  clear_bits, environment_call, wait_for_interrupt, execute_system, exc_ecall_m_mode,
  exc_ecall_s_mode, exc_ecall_u_mode,
}
use symex_vp.Core.Preserve.{HasFile, EnvironmentKeeps, write_rd-Keeps}

module _ (k : Clover) (w : Widths k) (D : Type 0) (env : Environment (State k.Value D))
    (ek : EnvironmentKeeps (HasFile k {D = D}) env) where
  abbrev P : State k.Value D → Type 0
  P = HasFile k

  abbrev Kept : {A : Type 0} → Action (State k.Value D) A → Type 0
  Kept m = Keeps P m

  pub hart-Keeps : (f : Hart → Result Hart) → Kept (with_hart f)
  unfolding with_hart
  hart-Keeps f = record { kept = λ s p. go s p (f s.hart) }
    where
      go :
          (s : State k.Value D)
          → P s
          → (r : Result Hart)
          → let out : Result (Unit {0}) × State k.Value D = elim r [
            | returned h ↦ (returned tt, record s { hart = h })
            | raised t ↦ (raised t, s)
            | aborted ↦ (aborted, s)
          ] in
            P out.1
      go s p (returned h) = p
      go s p (raised t) = p
      go s p aborted = p

  csr-Keeps : (addr : ℕ) → Kept (read_csr env addr)
  unfolding read_csr
  csr-Keeps addr = record {
    kept = λ s p. go s p (get_csr_value (env.update_and_get_mtime s) addr s.hart);
  }
    where
      go :
          (s : State k.Value D)
          → P s
          → (r : Result (Hart × ℕ))
          → let out : Result ℕ × State k.Value D = elim r [
            | returned (h, value) ↦ (returned value, record s { hart = h })
            | raised t ↦ (raised t, s)
            | aborted ↦ (aborted, s)
          ] in
            P out.1
      go s p (returned (h, value)) = p
      go s p (raised t) = p
      go s p aborted = p

  illegal-Keeps : {A : Type 0} → Kept (illegal k {A = A})
  illegal-Keeps = record { kept = λ s p. p }

  access-Keeps : (addr : ℕ) (b : Bool) → Kept (check_access addr b)
  unfolding check_access
  access-Keeps addr b = record { kept = λ s p. p }

  old-Keeps : (v : ℕ) → Kept (write_old k env v)
  unfolding write_old
  old-Keeps v =
      look-Keeps P (λ s. if rd k s != 0 then write_rd k (k.bvc v) else skip)
        (λ s.
          if-Keeps P (rd k s != 0) (write_rd k (k.bvc v)) skip (write_rd-Keeps k w D (k.bvc v))
            (skip-Keeps P))

  -- The accesses for given operands.
  abbrev swapping : ℕ → ℕ → Bool → Action (State k.Value D) (Unit {0})
  swapping addr value reads =
      (if reads then (read_csr env addr >>= write_old k env) else skip)
      >> with_hart (set_csr_value addr value)

  swapping-Keeps : (addr value : ℕ) (reads : Bool) → Kept (swapping addr value reads)
  swapping-Keeps addr value reads =
      then-Keeps P (if reads then (read_csr env addr >>= write_old k env) else skip)
        (with_hart (set_csr_value addr value))
        (if-Keeps P reads (read_csr env addr >>= write_old k env) skip
          (bind-Keeps P (read_csr env addr) (write_old k env) (csr-Keeps addr) old-Keeps)
          (skip-Keeps P))
        (hart-Keeps (set_csr_value addr value))

  swap-Keeps : (operand : State k.Value D → ℕ) → Kept (swap_csr k env operand)
  unfolding swap_csr
  swap-Keeps operand =
      look-Keeps P
        (λ s. check_access (Fields.csr s.hart.instr) true >>= λ invalid.
          if invalid
          then illegal k
          else swapping (Fields.csr s.hart.instr) (operand s) (rd k s != 0))
        (λ s.
          bind-Keeps P (check_access (Fields.csr s.hart.instr) true)
            (λ invalid.
              if invalid
              then illegal k
              else swapping (Fields.csr s.hart.instr) (operand s) (rd k s != 0))
            (access-Keeps (Fields.csr s.hart.instr) true)
            (λ invalid.
              if-Keeps P invalid (illegal k)
                (swapping (Fields.csr s.hart.instr) (operand s) (rd k s != 0)) illegal-Keeps
                (swapping-Keeps (Fields.csr s.hart.instr) (operand s) (rd k s != 0))))

  abbrev updating : ℕ → Bool → ℕ → (ℕ → ℕ → ℕ) → Action (State k.Value D) (Unit {0})
  updating addr writes value combine = read_csr env addr >>= λ csr_val.
      write_old k env csr_val
      >> (if writes then with_hart (set_csr_value addr (combine csr_val value)) else skip)

  updating-Keeps :
      (addr : ℕ) (writes : Bool) (value : ℕ) (combine : ℕ → ℕ → ℕ)
      → Kept (updating addr writes value combine)
  updating-Keeps addr writes value combine =
      bind-Keeps P (read_csr env addr)
        (λ csr_val.
          write_old k env csr_val
          >> (if writes then with_hart (set_csr_value addr (combine csr_val value)) else skip))
        (csr-Keeps addr)
        (λ csr_val.
          then-Keeps P (write_old k env csr_val)
            (if writes then with_hart (set_csr_value addr (combine csr_val value)) else skip)
            (old-Keeps csr_val)
            (if-Keeps P writes (with_hart (set_csr_value addr (combine csr_val value))) skip
              (hart-Keeps (set_csr_value addr (combine csr_val value))) (skip-Keeps P)))

  update-Keeps :
      (writes : State k.Value D → Bool) (operand : State k.Value D → ℕ) (combine : ℕ → ℕ → ℕ)
      → Kept (update_csr k env writes operand combine)
  unfolding update_csr
  update-Keeps writes operand combine =
      look-Keeps P
        (λ s. check_access (Fields.csr s.hart.instr) (writes s) >>= λ invalid.
          if invalid
          then illegal k
          else updating (Fields.csr s.hart.instr) (writes s) (operand s) combine)
        (λ s.
          bind-Keeps P (check_access (Fields.csr s.hart.instr) (writes s))
            (λ invalid.
              if invalid
              then illegal k
              else updating (Fields.csr s.hart.instr) (writes s) (operand s) combine)
            (access-Keeps (Fields.csr s.hart.instr) (writes s))
            (λ invalid.
              if-Keeps P invalid (illegal k)
                (updating (Fields.csr s.hart.instr) (writes s) (operand s) combine) illegal-Keeps
                (updating-Keeps (Fields.csr s.hart.instr) (writes s) (operand s) combine)))

  call-Keeps : Kept (environment_call k env)
  unfolding environment_call
  call-Keeps =
      look-Keeps P
        (λ s.
          switch s.hart.prv
            ((machine_mode, raise_trap exc_ecall_m_mode s.hart.last_pc)
              ∷ (supervisor_mode, raise_trap exc_ecall_s_mode s.hart.last_pc)
              ∷ (user_mode, raise_trap exc_ecall_u_mode s.hart.last_pc)
              ∷ [])
            abort)
        (λ s.
          switch_cases (Keeps P {A = Unit {0}}) s.hart.prv
            ((machine_mode, raise_trap exc_ecall_m_mode s.hart.last_pc)
              ∷ (supervisor_mode, raise_trap exc_ecall_s_mode s.hart.last_pc)
              ∷ (user_mode, raise_trap exc_ecall_u_mode s.hart.last_pc)
              ∷ [])
            abort
            ((λ _. record { kept = λ t p. p })
              also (λ _. record { kept = λ t p. p })
              also (λ _. record { kept = λ t p. p })
              also no_more)
            (record { kept = λ t p. p }))

  abbrev wait_if_idle : State k.Value D → State k.Value D
  wait_if_idle t =
      if not t.ignore_wfi && not (truth (bit_and (t.hart.csrs mie) (t.hart.csrs mip)))
      then env.wait_for_event t
      else t

  idle-HasFile : (t : State k.Value D) (b : Bool) → P t → P (if b then env.wait_for_event t else t)
  idle-HasFile t true p = ek.wait_for_event t p
  idle-HasFile t false p = p

  wait-Keeps : Kept (wait_for_interrupt k env)
  unfolding wait_for_interrupt
  wait-Keeps =
      let refused : State k.Value D → Bool =
        λ s. s_mode s.hart && truth (get tw (s.hart.csrs mstatus)) in
      let refused_u : State k.Value D → Bool =
        λ s. u_mode s.hart && has_extension (s.hart.csrs misa) s_extension in
      then-Keeps P (modify (on_hart release_lr_sc_reservation))
        (λ s.
          (raise_if (refused s) exc_illegal_instr s.hart.instr
              >> (raise_if (refused_u s) exc_illegal_instr s.hart.instr >> modify wait_if_idle))
            s)
        (modify-Keeps P (on_hart release_lr_sc_reservation) (λ s p. p))
        (look-Keeps P
          (λ s.
            raise_if (refused s) exc_illegal_instr s.hart.instr
            >> (raise_if (refused_u s) exc_illegal_instr s.hart.instr >> modify wait_if_idle))
          (λ s.
            then-Keeps P (raise_if (refused s) exc_illegal_instr s.hart.instr)
              (raise_if (refused_u s) exc_illegal_instr s.hart.instr >> modify wait_if_idle)
              (raise_if-Keeps P (refused s) exc_illegal_instr s.hart.instr)
              (then-Keeps P (raise_if (refused_u s) exc_illegal_instr s.hart.instr)
                (modify wait_if_idle)
                (raise_if-Keeps P (refused_u s) exc_illegal_instr s.hart.instr)
                (modify-Keeps P wait_if_idle (λ t p.
                  idle-HasFile t
                    (not t.ignore_wfi && not (truth (bit_and (t.hart.csrs mie) (t.hart.csrs mip))))
                    p)))))

  pub systems-Keep : (op : Mapping) → AllKeep P (execute_system k env op)
  unfolding execute_system
  systems-Keep fence = skip-Keeps P
  systems-Keep fence_i = skip-Keeps P
  systems-Keep ecall = call-Keeps
  systems-Keep ebreak = modify-Keeps P (λ s. record s { status = hit_breakpoint }) (λ s p. p)
  systems-Keep csrrw = swap-Keeps (rs1_value k env)
  systems-Keep csrrs = update-Keeps (rs1_given k env) (rs1_value k env) bit_or
  systems-Keep csrrc = update-Keeps (rs1_given k env) (rs1_value k env) (clear_bits k env)
  systems-Keep csrrwi = swap-Keeps (zimm k env)
  systems-Keep csrrsi = update-Keeps (λ s. zimm k env s != 0) (zimm k env) bit_or
  systems-Keep csrrci = update-Keeps (λ s. zimm k env s != 0) (zimm k env) (clear_bits k env)
  systems-Keep wfi = wait-Keeps
  systems-Keep mret = hart-Keeps (return_from_trap_handler machine_mode)
  systems-Keep op = tt
