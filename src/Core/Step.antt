-- ===== src/Core/Step.antt =====
-- A step of a hart: `exec_step`, `performance_and_sync_update` and `run_step` of
-- vp/src/core/rv32/iss.cpp, and `run` on fuel.
use symex_vp.Common.{
  ℕ, zero, suc, ◌+◌, ◌-◌, ◌*◌, ◌%◌, ◌^◌, Bool, true, false, ◌&&◌, ◌||◌, ◌==◌, ◌!=◌, if◌then◌else◌,
  truth, bit_and, not32, add32, List, [], ◌∷◌, Option, none, some,
}
use symex_vp.Csr.Fields.{get, cy, ir, c_extension}
use symex_vp.Csr.Register.{mcountinhibit, instret_low, instret_high}
use symex_vp.Instr.Fields
use symex_vp.Instr.Mapping.{
  Mapping, undef, lb, lbu, lh, lhu, lw, sb, sh, sw, mul, mulh, mulhu, mulhsu, div, divu, rem, remu,
}
use symex_vp.Instr.Match.{rv32}
use symex_vp.Instr.Decode.{decode_normal}
use symex_vp.Instr.Compressed.Expand.{decode_and_expand_compressed}
use symex_vp.Iss.Hart.{Hart, returned, raised, aborted, release_lr_sc_reservation, store}
use symex_vp.Iss.Action.{Action, pure, abort, skip, modify, assert, ◌>>=◌, ◌>>◌}
use symex_vp.Iss.Write.{pc_alignment_mask}
use symex_vp.Iss.Read.{low_word, high_word}
use symex_vp.Iss.Trap.{take_interrupt, take_trap}
use symex_vp.Core.Clover.{Clover}
use symex_vp.Core.State.{
  State, on_hart, set_pc, CoreExecStatus, runnable, hit_breakpoint, terminated,
}
use symex_vp.Core.Interface.{Memory, Environment}
use symex_vp.Core.RegFile
use symex_vp.Core.Operands.{illegal, write_rd, require_isa}
use symex_vp.Core.Execute.Integer.{integer_result}
use symex_vp.Core.Execute.Jump.{execute_jump}
use symex_vp.Core.Execute.Transfer.{execute_transfer}
use symex_vp.Core.Execute.System.{execute_system, with_hart}
use symex_vp.Core.Execute.Multiply.{execute_multiply}
use symex_vp.Core.Execute.Atomic.{execute_atomic, set_counter}

abbrev pub set_instr : ℕ → Hart → Hart
set_instr i h = record h { instr = i }

-- The first that is given, or the `default` of the switch.
abbrev pub first : {S : Type 0} → List (Option (Action S (Unit {0}))) → Action S (Unit {0})
first [] = abort
first (none ∷ rest) = first rest
first (some a ∷ rest) = a

abbrev pub is_undef : Mapping → Bool
is_undef undef = true
is_undef op = false

-- `instr_cycles`, as the constructor fills it.
unfoldable pub instr_cycles : ℕ → Mapping → ℕ
instr_cycles cycle_time lb = 4 * cycle_time
instr_cycles cycle_time lbu = 4 * cycle_time
instr_cycles cycle_time lh = 4 * cycle_time
instr_cycles cycle_time lhu = 4 * cycle_time
instr_cycles cycle_time lw = 4 * cycle_time
instr_cycles cycle_time sb = 4 * cycle_time
instr_cycles cycle_time sh = 4 * cycle_time
instr_cycles cycle_time sw = 4 * cycle_time
instr_cycles cycle_time mul = 8 * cycle_time
instr_cycles cycle_time mulh = 8 * cycle_time
instr_cycles cycle_time mulhu = 8 * cycle_time
instr_cycles cycle_time mulhsu = 8 * cycle_time
instr_cycles cycle_time div = 8 * cycle_time
instr_cycles cycle_time divu = 8 * cycle_time
instr_cycles cycle_time rem = 8 * cycle_time
instr_cycles cycle_time remu = 8 * cycle_time
instr_cycles cycle_time op = cycle_time

-- `++csrs.instret.reg`, a 64-bit counter of two words.
unfoldable pub count_instr : Hart → Hart
count_instr h =
    let n = h.csrs instret_high * 2 ^ 32 + h.csrs instret_low + 1 in
    if truth (get ir (h.csrs mcountinhibit))
    then h
    else store instret_high (high_word n) (store instret_low (low_word n) h)

-- A reservation is given up when its counter runs out.
unfoldable pub count_reservation : Hart → Hart
unfolding release_lr_sc_reservation
count_reservation h =
    if h.lr_sc_counter != 0
    then (if h.lr_sc_counter - 1 == 0
        then release_lr_sc_reservation h
        else set_counter (h.lr_sc_counter - 1) h)
    else h

unfoldable pub count_cycles : Mapping → Hart → Hart
unfolding instr_cycles
count_cycles op h =
    if truth (get cy (h.csrs mcountinhibit))
    then h
    else record h { cycle_counter = h.cycle_counter + instr_cycles h.cycle_time op }

module _ (k : Clover) {D : Type 0} (mem : Memory (State k.Value D) k.Value)
    (env : Environment (State k.Value D)) where
  -- The `switch` over the instruction.
  unfoldable pub execute : Mapping → Action (State k.Value D) (Unit {0})
  execute op s = if is_undef op then illegal k s else elim (integer_result k op s) [
    | some value ↦ write_rd k value s
    | none ↦
        first
          (execute_jump k op
            ∷ execute_transfer k mem op
            ∷ execute_system k env op
            ∷ execute_multiply k op
            ∷ execute_atomic k mem op
            ∷ [])
          s
  ]

  -- The instruction that was fetched and how the program counter goes on.
  unfoldable pub decode : ℕ → Action (State k.Value D) Mapping
  unfolding require_isa
  decode word s =
      if Fields.is_compressed word
      then elim (decode_and_expand_compressed rv32 word) [
        | none ↦ (aborted, s)
        | some (op, expanded) ↦
            ((if is_undef op then skip else require_isa k c_extension) >> pure op)
              (record (set_pc (add32 s.hart.pc 2) (on_hart (set_instr expanded) s)) { op = op })
      ]
      else (let op = decode_normal rv32 word in
          pure op (record (set_pc (add32 s.hart.pc 4) (on_hart (set_instr word) s)) { op = op }))

  -- A trap of the fetch leaves no instruction.
  unfoldable pub fetch : Action (State k.Value D) ℕ
  fetch s =
      let (r, s') = mem.load_instr s.hart.pc s in
      elim r [
        | returned word ↦ (returned word, on_hart (set_instr word) s')
        | raised t ↦ (raised t, record (on_hart (set_instr 0) s') { op = undef })
        | aborted ↦ (aborted, s')
      ]

  unfoldable pub exec_step : Action (State k.Value D) (Unit {0})
  unfolding execute decode fetch
  exec_step s =
      (assert (bit_and s.hart.pc (not32 (pc_alignment_mask s.hart)) == 0)
          >> (fetch >>= λ word. decode word >>= execute))
        s

  unfoldable pub performance_and_sync_update : State k.Value D → State k.Value D
  unfolding count_instr count_reservation count_cycles
  performance_and_sync_update s =
      let counted =
        on_hart (λ h. count_cycles s.op (count_reservation (count_instr h)))
          (record s { total_num_instr = (s.total_num_instr + 1) % 2 ^ 64 }) in
      if env.need_sync counted
      then (if counted.hart.lr_sc_counter == 0 then env.sync counted else counted)
      else counted

  -- The instruction and the interrupt after it, or the trap that either raised.
  unfoldable pub step_or_trap : Action (State k.Value D) (Unit {0})
  unfolding exec_step with_hart
  step_or_trap s =
      let (r, s') = (exec_step >> with_hart take_interrupt) s in
      elim r [
        | returned _ ↦ (returned tt, s')
        | raised e ↦ with_hart (take_trap e) s'
        | aborted ↦ (aborted, s')
      ]

  abbrev pub contains : ℕ → List ℕ → Bool
  contains pc [] = false
  contains pc (b ∷ breakpoints) = (b == pc) || contains pc breakpoints

  unfoldable pub reset_zero : Action (State k.Value D) (Unit {0})
  reset_zero s = elim (RegFile.write k 0 (k.bvc 0) s.regs) [
    | none ↦ (aborted, s)
    | some regs ↦ (returned tt, record s { regs = regs })
  ]

  unfoldable pub run_step : Action (State k.Value D) (Unit {0})
  unfolding step_or_trap reset_zero performance_and_sync_update
  run_step s =
      (assert (k.concrete (RegFile.element k s.regs 0) == 0)
          >> (if s.debug_mode && contains s.hart.pc s.breakpoints
              then modify (λ t. record t { status = hit_breakpoint })
              else ((λ t. step_or_trap (on_hart (λ h. record h { last_pc = h.pc }) t))
                  >> (reset_zero
                      >> modify (λ t.
                        performance_and_sync_update
                          (if t.shall_exit then record t { status = terminated } else t))))))
        s

  abbrev pub is_runnable : CoreExecStatus → Bool
  is_runnable runnable = true
  is_runnable hit_breakpoint = false
  is_runnable terminated = false

  -- At most `n` rounds of the loop of `run`; what the hart does may never end.
  unfoldable pub run : ℕ → Action (State k.Value D) (Unit {0})
  unfolding run_step
  run zero = skip
  run (suc n) =
      run_step >> λ s. (let rest = run n s in if is_runnable s.status then rest else skip s)
