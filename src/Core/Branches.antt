-- ===== src/Core/Branches.antt =====
-- The branches of vp/src/core/rv32/iss.cpp: the path that the concrete values take is the condition
-- that the trace of the symbolic execution records.
use symex_vp.Common.{
  ℕ, ◌%◌, ◌^◌, ◌<◌, ◌≡◌, ◌∙◌, ap, refl, Bool, true, false, not, ◌==◌, ltb, truth, bit_and,
  if◌then◌else◌, sext32, add32, and_mask, ◌∷◌, Option, none, some, arith, Bool-cases, inl, inr,
}
use symex_vp.Csr.Fields.{has_extension, c_extension}
use symex_vp.Csr.Register.{misa}
use symex_vp.Instr.Fields
use symex_vp.Instr.FieldLaws.{immediates_lem, branch_bits}
use symex_vp.Instr.Mapping.{Mapping, beq, bne, blt, bge, bltu, bgeu}
use symex_vp.Iss.Hart.{Result, returned}
use symex_vp.Iss.Action.{modify, skip, ◌>>◌, >>=-returned}
use symex_vp.Core.Clover.{Clover}
use symex_vp.Core.State.{State, set_pc}
use symex_vp.Core.Interface.{Memory, Environment}
use symex_vp.Core.Semantics.{Semantics, Is, signed_less, flag_of}
use symex_vp.Core.Operands.{reg1, reg2, trap_check_pc_alignment, track_and_trace_branch}
use symex_vp.Core.Execute.Integer.{integer_result}
use symex_vp.Core.Execute.Jump.{execute_jump, branch}
use symex_vp.Core.Step.{execute}
use symex_vp.Core.Refines.{HasOperands}

-- When a branch of the architecture is taken.
pub taken : Mapping → ℕ → ℕ → Option Bool
taken beq x y = some (x == y)
taken bne x y = some (not (x == y))
taken blt x y = some (signed_less 32 x y)
taken bge x y = some (not (signed_less 32 x y))
taken bltu x y = some (ltb x y)
taken bgeu x y = some (not (ltb x y))
taken op x y = none

-- The address that a branch goes to.
abbrev pub target : ℕ → ℕ → ℕ
target i pc = add32 pc (sext32 13 (branch_bits i))

target_lem : (i pc : ℕ) → i < 2 ^ 32 → add32 pc (Fields.b_imm i) ≡ target i pc
target_lem i pc h = ap (λ t. add32 pc t) (immediates_lem i h).2

target_even : (i pc : ℕ) → pc % 2 ≡ 0 → target i pc % 2 ≡ 0
target_even i pc even = ground arith

module _ (k : Clover) (sem : Semantics k) (D : Type 0) (mem : Memory (State k.Value D) k.Value)
    (env : Environment (State k.Value D)) (s : State k.Value D) where
  -- The hart goes on at `pc`, having recorded the condition, whose value is `b`, if it is symbolic.
  abbrev pub GoesOn : Bool → ℕ → Result (Unit {0}) × State k.Value D → Type 0
  GoesOn b pc out =
      (c : k.Value) × Is k sem.value c 1 (flag_of b)
      × (out ≡ (
        returned tt,
        record (set_pc pc s) {
          branches = if k.has_symbolic c then (b, c, s.hart.last_pc) ∷ s.branches else s.branches;
        },
      ))

  aligned_lem :
      (pc : ℕ)
      → pc % 2 ≡ 0
      → has_extension (s.hart.csrs misa) c_extension ≡ true
      → trap_check_pc_alignment k (set_pc pc s) ≡ (returned tt, set_pc pc s)
  unfolding trap_check_pc_alignment
  aligned_lem pc even c =
      let e : bit_and pc 1 ≡ 0 = omega (arith, and_mask 1 pc) in
      rw (e, c) (elim (Bool-cases (truth (bit_and pc 3))) [ inl f ↦ rw f refl | inr f ↦ rw f refl ])

  traced_lem :
      (b : Bool) (c : k.Value) (t : State k.Value D)
      → track_and_trace_branch k b c t ≡ (
        returned tt,
        record t {
          branches = if k.has_symbolic c then (b, c, t.hart.last_pc) ∷ t.branches else t.branches;
        },
      )
  unfolding track_and_trace_branch
  traced_lem b c t = elim (Bool-cases (k.has_symbolic c)) [ inl e ↦ rw e refl | inr e ↦ rw e refl ]

  branch_lem :
      (f : k.Value → k.Value → k.Value) (b : Bool)
      → s.hart.instr < 2 ^ 32
      → s.hart.last_pc % 2 ≡ 0
      → has_extension (s.hart.csrs misa) c_extension ≡ true
      → Is k sem.value (f (reg1 k s) (reg2 k s)) 1 (flag_of b)
      → GoesOn b (if b then target s.hart.instr s.hart.last_pc else s.hart.pc) (branch k f s)
  unfolding branch
  branch_lem f b word even ext h =
      let c : k.Value = f (reg1 k s) (reg2 k s) in
      let cond : k.is_true c ≡ b =
        sem.is_true_is c (flag_of b) h
        ∙ elim (Bool-cases b) [ inl e ↦ rw e refl | inr e ↦ rw e refl ] in
      (
        c,
        h,
        ap
              (λ t.
                ((if t
                      then (modify (set_pc (add32 s.hart.last_pc (Fields.b_imm s.hart.instr)))
                          >> trap_check_pc_alignment k)
                      else skip)
                    >> track_and_trace_branch k t c)
                  s)
              cond
            ∙ go b c,
      )
    where
      go :
          (b : Bool) (c : k.Value)
          → ((if b
                  then (modify (set_pc (add32 s.hart.last_pc (Fields.b_imm s.hart.instr)))
                      >> trap_check_pc_alignment k)
                  else skip)
                >> track_and_trace_branch k b c)
              s
            ≡ (
              returned tt,
              record (set_pc (if b then target s.hart.instr s.hart.last_pc else s.hart.pc) s) {
                branches =
                    if k.has_symbolic c then (b, c, s.hart.last_pc) ∷ s.branches else s.branches;
              },
            )
      go true c =
          ap
            (λ pc.
              ((modify (set_pc pc) >> trap_check_pc_alignment k) >> track_and_trace_branch k true c)
                s)
            (target_lem s.hart.instr s.hart.last_pc word)
          ∙ >>=-returned (trap_check_pc_alignment k) (λ _. track_and_trace_branch k true c)
              (set_pc (target s.hart.instr s.hart.last_pc) s)
              (set_pc (target s.hart.instr s.hart.last_pc) s) tt
              (aligned_lem (target s.hart.instr s.hart.last_pc)
                (target_even s.hart.instr s.hart.last_pc even) ext)
          ∙ traced_lem true c (set_pc (target s.hart.instr s.hart.last_pc) s)
      go false c = traced_lem false c s

  abbrev pub Follows : Option Bool → Result (Unit {0}) × State k.Value D → Type 0
  Follows none out = Unit
  Follows (some b) out = GoesOn b (if b then target s.hart.instr s.hart.last_pc else s.hart.pc) out

  -- With clover's operations as documented (`Semantics`), and the C extension in `misa`, a branch
  -- at an even address, whose word, address and operands are of 32 bits, goes to its target
  -- exactly when the architecture's comparison of the operands holds, and otherwise on; if the
  -- comparison is symbolic, the trace gets it, with its outcome and the branch's address, and
  -- nothing else changes.
  pub execute-taken :
      (op : Mapping) (x y : ℕ)
      → HasOperands k sem D s x y
      → s.hart.last_pc % 2 ≡ 0
      → has_extension (s.hart.csrs misa) c_extension ≡ true
      → Follows (taken op x y) (execute k mem env op s)
  unfolding execute integer_result execute_jump taken
  execute-taken beq x y o even ext =
      branch_lem k.eq (x == y) o.word even ext
        (sem.eq_is (reg1 k s) (reg2 k s) 32 x y o.first o.second)
  execute-taken bne x y o even ext =
      branch_lem k.ne (not (x == y)) o.word even ext
        (sem.ne_is (reg1 k s) (reg2 k s) 32 x y o.first o.second)
  execute-taken blt x y o even ext =
      branch_lem k.slt (signed_less 32 x y) o.word even ext
        (sem.slt_is (reg1 k s) (reg2 k s) 32 x y o.first o.second)
  execute-taken bge x y o even ext =
      branch_lem k.sge (not (signed_less 32 x y)) o.word even ext
        (sem.sge_is (reg1 k s) (reg2 k s) 32 x y o.first o.second)
  execute-taken bltu x y o even ext =
      branch_lem k.ult (ltb x y) o.word even ext
        (sem.ult_is (reg1 k s) (reg2 k s) 32 x y o.first o.second)
  execute-taken bgeu x y o even ext =
      branch_lem k.uge (not (ltb x y)) o.word even ext
        (sem.uge_is (reg1 k s) (reg2 k s) 32 x y o.first o.second)
  execute-taken op x y o even ext = tt
