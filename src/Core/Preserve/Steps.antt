-- ===== src/Core/Preserve/Steps.antt =====
-- The steps of vp/src/core/rv32/iss.cpp keep the register file and the register x0.
use symex_vp.Common.{
  ℕ, Bool, true, false, ◌==◌, if◌then◌else◌, bit_and, not32, add32, List, [], ◌∷◌, Option, none,
  some,
}
use symex_vp.Instr.Fields
use symex_vp.Instr.Mapping.{Mapping, undef}
use symex_vp.Instr.Match.{rv32}
use symex_vp.Instr.Decode.{decode_normal}
use symex_vp.Instr.Compressed.Expand.{decode_and_expand_compressed}
use symex_vp.Csr.Fields.{c_extension}
use symex_vp.Iss.Hart.{Result, returned, raised, aborted}
use symex_vp.Iss.Action.{Action, pure, skip, abort, assert, ◌>>=◌, ◌>>◌}
use symex_vp.Iss.Keeps.{Keeps, bind-Keeps, then-Keeps, if-Keeps, skip-Keeps, look-Keeps, AllKeep}
use symex_vp.Iss.Write.{pc_alignment_mask}
use symex_vp.Iss.Trap.{take_interrupt, take_trap}
use symex_vp.Core.Clover.{Clover}
use symex_vp.Core.State.{State, on_hart, set_pc}
use symex_vp.Core.Interface.{Memory, Environment}
use symex_vp.Core.Registers.{Widths}
use symex_vp.Core.Operands.{illegal, write_rd, require_isa}
use symex_vp.Core.Execute.Integer.{integer_result}
use symex_vp.Core.Execute.Jump.{execute_jump}
use symex_vp.Core.Execute.Transfer.{execute_transfer}
use symex_vp.Core.Execute.System.{execute_system, with_hart}
use symex_vp.Core.Execute.Multiply.{execute_multiply}
use symex_vp.Core.Execute.Atomic.{execute_atomic}
use symex_vp.Core.Step.{first, is_undef, execute, decode, fetch, exec_step, step_or_trap, set_instr}
use symex_vp.Core.Preserve.{
  HasFile, MemoryKeeps, EnvironmentKeeps, write_rd-Keeps, require_isa-Keeps, jumps-Keeps,
  products-Keep,
}
use symex_vp.Core.Preserve.Accesses.{transfers-Keep, atomics-Keep}
use symex_vp.Core.Preserve.System.{systems-Keep, hart-Keeps}

module _ (k : Clover) (w : Widths k) (D : Type 0) (mem : Memory (State k.Value D) k.Value)
    (mk : MemoryKeeps (HasFile k {D = D}) mem) (env : Environment (State k.Value D))
    (ek : EnvironmentKeeps (HasFile k {D = D}) env) where
  abbrev P : State k.Value D → Type 0
  P = HasFile k

  abbrev Kept : {A : Type 0} → Action (State k.Value D) A → Type 0
  Kept m = Keeps P m

  first-Keeps :
      (o : Option (Action (State k.Value D) (Unit {0})))
      (rest : List (Option (Action (State k.Value D) (Unit {0}))))
      → AllKeep P o
      → Kept (first rest)
      → Kept (first (o ∷ rest))
  first-Keeps none rest h g = g
  first-Keeps (some a) rest h g = h

  result-Keeps :
      (r : Option k.Value) (other : Action (State k.Value D) (Unit {0})) (s : State k.Value D)
      → Kept other
      → P s
      → let out : Result (Unit {0}) × State k.Value D = elim r [
        | some value ↦ write_rd k value s
        | none ↦ other s
      ] in
        P out.1
  result-Keeps (some v) other s h p = (write_rd-Keeps k w D v).kept s p
  result-Keeps none other s h p = h.kept s p

  abbrev others : Mapping → List (Option (Action (State k.Value D) (Unit {0})))
  others op =
      execute_jump k op
      ∷ execute_transfer k mem op
      ∷ execute_system k env op
      ∷ execute_multiply k op
      ∷ execute_atomic k mem op
      ∷ []

  others-Keep : (op : Mapping) → Kept (first (others op))
  others-Keep op =
      first-Keeps (execute_jump k op)
        (execute_transfer k mem op
          ∷ execute_system k env op
          ∷ execute_multiply k op
          ∷ execute_atomic k mem op
          ∷ [])
        (jumps-Keeps k w D op)
        (first-Keeps (execute_transfer k mem op)
          (execute_system k env op ∷ execute_multiply k op ∷ execute_atomic k mem op ∷ [])
          (transfers-Keep k w D mem mk op)
          (first-Keeps (execute_system k env op)
            (execute_multiply k op ∷ execute_atomic k mem op ∷ []) (systems-Keep k w D env ek op)
            (first-Keeps (execute_multiply k op) (execute_atomic k mem op ∷ [])
              (products-Keep k w D op)
              (first-Keeps (execute_atomic k mem op) [] (atomics-Keep k w D mem mk op)
                (record { kept = λ s p. p })))))

  execute-Keeps : (op : Mapping) → Kept (execute k mem env op)
  unfolding execute
  execute-Keeps op = record { kept = λ s p. go s p (is_undef op) }
    where
      go :
          (s : State k.Value D)
          → P s
          → (b : Bool)
          → let other : Result (Unit {0}) × State k.Value D = elim (integer_result k op s) [
            | some value ↦ write_rd k value s
            | none ↦ first (others op) s
          ] in
            P (if b then illegal k s else other).1
      go s p true = p
      go s p false = result-Keeps (integer_result k op s) (first (others op)) s (others-Keep op) p

  fetch-Keeps : Kept (fetch k mem env)
  unfolding fetch
  fetch-Keeps = record {
    kept = λ s p. go (mem.load_instr s.hart.pc s) ((mk.load_instr s.hart.pc).kept s p);
  }
    where
      go :
          (o : Result ℕ × State k.Value D)
          → P o.1
          → let out : Result ℕ × State k.Value D = elim o.0 [
            | returned word ↦ (returned word, on_hart (set_instr word) o.1)
            | raised t ↦ (raised t, record (on_hart (set_instr 0) o.1) { op = undef })
            | aborted ↦ (aborted, o.1)
          ] in
            P out.1
      go (returned x, t) p = p
      go (raised x, t) p = p
      go (aborted, t) p = p

  -- The decoder's result, before the extension is required.
  abbrev at_pc : ℕ → ℕ → Mapping → State k.Value D → State k.Value D
  at_pc size word op s = record (set_pc (add32 s.hart.pc size) (on_hart (set_instr word) s)) {
    op = op;
  }

  abbrev required : Mapping → Action (State k.Value D) Mapping
  required op = (if is_undef op then skip else require_isa k c_extension) >> pure op

  required-Keeps : (op : Mapping) → Kept (required op)
  required-Keeps op =
      then-Keeps P (if is_undef op then skip else require_isa k c_extension) (pure op)
        (if-Keeps P (is_undef op) skip (require_isa k c_extension) (skip-Keeps P)
          (require_isa-Keeps k w D c_extension))
        (record { kept = λ s p. p })

  decode-Keeps : (word : ℕ) → Kept (decode k mem env word)
  unfolding decode
  decode-Keeps word = record {
    kept = λ s p. go s p (Fields.is_compressed word) (decode_and_expand_compressed rv32 word);
  }
    where
      go :
          (s : State k.Value D)
          → P s
          → (b : Bool) → (o : Option (Mapping × ℕ))
          → let expanded : Result Mapping × State k.Value D = elim o [
            | none ↦ (aborted, s)
            | some (op, i) ↦ required op (at_pc 2 i op s)
          ] in
            P
              (if b
                then expanded
                else pure (decode_normal rv32 word) (at_pc 4 word (decode_normal rv32 word) s)).1
      go s p true none = p
      go s p true (some (op, i)) = (required-Keeps op).kept (at_pc 2 i op s) p
      go s p false o = p

  pub exec_step-Keeps : Kept (exec_step k mem env)
  unfolding exec_step
  exec_step-Keeps =
      look-Keeps P
        (λ s.
          assert (bit_and s.hart.pc (not32 (pc_alignment_mask s.hart)) == 0)
          >> (fetch k mem env >>= λ word. decode k mem env word >>= execute k mem env))
        (λ s.
          then-Keeps P (assert (bit_and s.hart.pc (not32 (pc_alignment_mask s.hart)) == 0))
            (fetch k mem env >>= λ word. decode k mem env word >>= execute k mem env)
            (if-Keeps P (bit_and s.hart.pc (not32 (pc_alignment_mask s.hart)) == 0) skip abort
              (skip-Keeps P) (record { kept = λ t p. p }))
            (bind-Keeps P (fetch k mem env) (λ word. decode k mem env word >>= execute k mem env)
              fetch-Keeps
              (λ word.
                bind-Keeps P (decode k mem env word) (execute k mem env) (decode-Keeps word)
                  execute-Keeps)))

  pub step_or_trap-Keeps : Kept (step_or_trap k mem env)
  unfolding step_or_trap
  step_or_trap-Keeps = record {
    kept = λ s p. go ((exec_step k mem env >> with_hart take_interrupt) s) (
        (then-Keeps P (exec_step k mem env) (with_hart take_interrupt) exec_step-Keeps
            (hart-Keeps k w D env ek take_interrupt)).kept
          s p);
  }
    where
      go :
          (o : Result (Unit {0}) × State k.Value D)
          → P o.1
          → let out : Result (Unit {0}) × State k.Value D = elim o.0 [
            | returned _ ↦ (returned tt, o.1)
            | raised e ↦ with_hart (take_trap e) o.1
            | aborted ↦ (aborted, o.1)
          ] in
            P out.1
      go (returned x, t) p = p
      go (raised x, t) p = (hart-Keeps k w D env ek (take_trap x)).kept t p
      go (aborted, t) p = p
