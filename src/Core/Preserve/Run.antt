-- ===== src/Core/Preserve/Run.antt =====
-- `run_step` and `run` of vp/src/core/rv32/iss.cpp: what the assertion at the start of each step says.
use symex_vp.Common.{
  ℕ, zero, suc, ◌≡◌, refl, ap, true, ◌&&◌, ◌||◌, not, ◌==◌, leb, truth, bit_and, shl32, ◌^◌,
  if◌then◌else◌, List, Option, none, some, arith, Bool-cases, inl, inr, get_or-set_self, if_cases,
  switch_cases, ◌also◌, no_more, set,
}
use symex_vp.Csr.Register.{medeleg, sedeleg}
use symex_vp.Iss.Hart.{
  Hart, Result, returned, raised, aborted, SimulationTrap, machine_mode, supervisor_mode, user_mode,
}
use symex_vp.Iss.Action.{Action, skip, modify, ◌>>◌, >>=-returned}
use symex_vp.Iss.Trap.{take_trap, take_interrupt, prepare_trap, switch_to_trap_handler}
use symex_vp.Core.Clover.{Clover}
use symex_vp.Core.State.{State, on_hart, terminated}
use symex_vp.Core.Interface.{Memory, Environment}
use symex_vp.Core.RegFile
use symex_vp.Core.Registers.{Widths, IsFile, set-IsFile}
use symex_vp.Core.Execute.System.{with_hart}
use symex_vp.Core.Step.{
  exec_step, step_or_trap, run_step, run, reset_zero, performance_and_sync_update, contains,
  is_runnable,
}
use symex_vp.Core.Preserve.{HasFile, MemoryKeeps, EnvironmentKeeps}
use symex_vp.Core.Preserve.Steps.{step_or_trap-Keeps}

-- A hart between two steps: its registers are well formed and x0 is zero.
pub record IsReady (k : Clover) {D : Type 0} (s : State k.Value D) : Type 0 where
  pub file : IsFile k s.regs
  pub zero : RegFile.element k s.regs 0 ≡ k.bvc 0

-- A step or a run that returns leaves the hart ready; no trap gets out. It may be `aborted`.
abbrev pub EndsReady : (k : Clover) → {D : Type 0} → Result (Unit {0}) × State k.Value D → Type 0
EndsReady k (returned _, s) = IsReady k s
EndsReady k (raised t, s) = ⊥
EndsReady k (aborted, s) = Unit

-- A result that is no trap.
abbrev IsCaught : {A : Type 0} → Result A → Type 0
IsCaught (returned a) = Unit
IsCaught (raised t) = ⊥
IsCaught aborted = Unit

switch_to-IsCaught : (m : ℕ) (h : Hart) → IsCaught (switch_to_trap_handler m h)
unfolding switch_to_trap_handler
switch_to-IsCaught m h =
    switch_cases IsCaught m _ _ ((λ _. tt) also (λ _. tt) also (λ _. tt) also no_more) tt

prepare-IsCaught : (e : SimulationTrap) (h : Hart) → IsCaught (prepare_trap e h)
unfolding prepare_trap
prepare-IsCaught e h =
    if_cases IsCaught (leb (2 ^ 32) e.mtval) _ _ (λ _. tt)
      (λ _.
        if_cases IsCaught
          ((h.prv == machine_mode) || not (truth (bit_and (shl32 1 e.reason) (h.csrs medeleg)))) _ _
          (λ _. tt)
          (λ _.
            if_cases IsCaught
              ((h.prv == supervisor_mode)
                || not (truth (bit_and (shl32 1 e.reason) (h.csrs sedeleg))))
              _ _ (λ _. tt) (λ _. if_cases IsCaught (h.prv == user_mode) _ _ (λ _. tt) (λ _. tt))))

take_trap-IsCaught : (e : SimulationTrap) (h : Hart) → IsCaught (take_trap e h)
unfolding take_trap
take_trap-IsCaught e h = go (prepare_trap e h) (prepare-IsCaught e h)
  where
    go :
        (r : Result (Hart × ℕ))
        → IsCaught r
        → let out : Result Hart = elim r [
          | returned (h', target_mode) ↦ switch_to_trap_handler target_mode h'
          | raised t ↦ raised t
          | aborted ↦ aborted
        ] in
          IsCaught out
    go (returned (h', m)) c = switch_to-IsCaught m h'
    go (raised t) c = elim c [ ]
    go aborted c = tt

with_hart-IsCaught :
    (V D : Type 0) (f : Hart → Result Hart) (s : State V D)
    → IsCaught (f s.hart)
    → IsCaught (with_hart f s).0
unfolding with_hart
with_hart-IsCaught V D f s c = go (f s.hart) c
  where
    go :
        (r : Result Hart)
        → IsCaught r
        → let out : Result (Unit {0}) × State V D = elim r [
          | returned h ↦ (returned tt, record s { hart = h })
          | raised t ↦ (raised t, s)
          | aborted ↦ (aborted, s)
        ] in
          IsCaught out.0
    go (returned h) c = tt
    go (raised t) c = elim c [ ]
    go aborted c = tt

module _ (k : Clover) (w : Widths k) (D : Type 0) (mem : Memory (State k.Value D) k.Value)
    (env : Environment (State k.Value D)) (mk : MemoryKeeps (HasFile k {D = D}) mem)
    (ek : EnvironmentKeeps (HasFile k {D = D}) env)
    (er : EnvironmentKeeps (IsReady k {D = D}) env) where
  -- A step that returned or was aborted, with the register file kept.
  step-IsCaught : (s : State k.Value D) → IsCaught (step_or_trap k mem env s).0
  unfolding step_or_trap
  step-IsCaught s = go ((exec_step k mem env >> with_hart (take_interrupt)) s)
    where
      go :
          (o : Result (Unit {0}) × State k.Value D)
          → let out : Result (Unit {0}) × State k.Value D = elim o.0 [
            | returned _ ↦ (returned tt, o.1)
            | raised e ↦ with_hart (take_trap e) o.1
            | aborted ↦ (aborted, o.1)
          ] in
            IsCaught out.0
      go (returned x, t) = tt
      go (raised e, t) = with_hart-IsCaught k.Value D (take_trap e) t (take_trap-IsCaught e t.hart)
      go (aborted, t) = tt

  count-IsReady :
      (t : State k.Value D) → IsReady k t → IsReady k (performance_and_sync_update k mem env t)
  unfolding performance_and_sync_update
  count-IsReady t r = go _ (record { file = r.file; zero = r.zero })
    where
      go :
          (c : State k.Value D)
          → IsReady k c
          → IsReady k
              (if env.need_sync c then (if c.hart.lr_sc_counter == 0 then env.sync c else c) else c)
      go c r =
          if_cases (IsReady k) (env.need_sync c) _ _
            (λ _. if_cases (IsReady k) (c.hart.lr_sc_counter == 0) _ _ (λ _. er.sync c r) (λ _. r))
            (λ _. r)

  abbrev finish : State k.Value D → State k.Value D
  finish t =
      performance_and_sync_update k mem env
        (if t.shall_exit then record t { status = terminated } else t)

  finish-IsReady : (t : State k.Value D) → IsReady k t → IsReady k (finish t)
  finish-IsReady t r = count-IsReady _ (
      if_cases (IsReady k) t.shall_exit (record t { status = terminated }) t
        (λ _. record { file = r.file; zero = r.zero }) (λ _. r))

  write_zero :
      (regs : List k.Value) → RegFile.write k 0 (k.bvc 0) regs ≡ some (set regs 0 (k.bvc 0))
  unfolding RegFile.write
  write_zero regs = rw (w.width_bvc 0) refl

  reset_lem :
      (t : State k.Value D)
      → reset_zero k mem env t ≡ (returned tt, record t { regs = set t.regs 0 (k.bvc 0) })
  unfolding reset_zero
  reset_lem t =
      ap
        (λ (o : Option (List k.Value)).
          (let out : Result (Unit {0}) × State k.Value D = elim o [
            | none ↦ (aborted, t)
            | some regs ↦ (returned tt, record t { regs = regs })
          ] in
            out))
        (write_zero t.regs)

  reset-IsReady :
      (t : State k.Value D)
      → IsFile k t.regs
      → IsReady k (record t { regs = set t.regs 0 (k.bvc 0) })
  unfolding RegFile.element
  reset-IsReady t f = record {
    file = set-IsFile k w 0 (k.bvc 0) t.regs (omega arith) (w.width_bvc 0) f;
    zero = get_or-set_self t.regs 0 (k.bvc 0) (k.bvc 0) (omega (arith, f.size));
  }

  reset-EndsReady :
      (t : State k.Value D)
      → IsFile k t.regs
      → EndsReady k ((reset_zero k mem env >> modify finish) t)
  reset-EndsReady t f =
      rw
        (>>=-returned (reset_zero k mem env) (λ _. modify finish) t
          (record t { regs = set t.regs 0 (k.bvc 0) }) tt (reset_lem t))
        (finish-IsReady (record t { regs = set t.regs 0 (k.bvc 0) }) (reset-IsReady t f))

  abbrev instruction : Action (State k.Value D) (Unit {0})
  instruction =
      (λ t. step_or_trap k mem env (on_hart (λ h. record h { last_pc = h.pc }) t))
      >> (reset_zero k mem env >> modify finish)

  instruction-EndsReady : (s : State k.Value D) → IsReady k s → EndsReady k (instruction s)
  instruction-EndsReady s r =
      let t : State k.Value D = on_hart (λ h. record h { last_pc = h.pc }) s in
      go (step_or_trap k mem env t) (step-IsCaught t)
        ((step_or_trap-Keeps k w D mem mk env ek).kept t r.file)
    where
      go :
          (o : Result (Unit {0}) × State k.Value D)
          → IsCaught o.0
          → HasFile k o.1
          → EndsReady k
              (((λ (_ : State k.Value D). o) >> (reset_zero k mem env >> modify finish)) s)
      go (returned x, t) c f = reset-EndsReady t f
      go (raised e, t) c f = elim c [ ]
      go (aborted, t) c f = tt

  pub run_step-EndsReady : (s : State k.Value D) → IsReady k s → EndsReady k (run_step k mem env s)
  unfolding run_step
  run_step-EndsReady s r =
      let holds : (k.concrete (RegFile.element k s.regs 0) == 0) ≡ true =
        rw (r.zero, w.concrete_bvc 0 (omega arith)) refl in
      rw holds (elim (Bool-cases (s.debug_mode && contains k mem env s.hart.pc s.breakpoints)) [
        | inl stop ↦ rw stop (record { file = r.file; zero = r.zero })
        | inr on ↦ rw on (instruction-EndsReady s r)
      ])

  run-EndsReady : (n : ℕ) (s : State k.Value D) → IsReady k s → EndsReady k (run k mem env n s)
  unfolding run
  run-EndsReady zero s r = r
  run-EndsReady (suc n) s r =
      go (λ t q. run-EndsReady n t q) (run_step k mem env s) (run_step-EndsReady s r)
    where
      go :
          ((t : State k.Value D) → IsReady k t → EndsReady k (run k mem env n t))
          → (o : Result (Unit {0}) × State k.Value D) → EndsReady k o
          → EndsReady k (
              ((λ (_ : State k.Value D). o) >> λ t.
              (if is_runnable k mem env t.status then run k mem env n t else skip t))
                s)
      go rest (returned x, t) q =
          if_cases (EndsReady k) (is_runnable k mem env t.status) _ _ (λ _. rest t q) (λ _. q)
      go rest (raised e, t) q = elim q [ ]
      go rest (aborted, t) q = tt
