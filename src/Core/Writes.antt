-- ===== src/Core/Writes.antt =====
-- What the integer instructions and the M extension of vp/src/core/rv32/iss.cpp leave in the
-- destination.
use symex_vp.Common.{
  ℕ, ◌≤◌, ◌≡◌, refl, ap, true, ltb, leb, List, [], ◌∷◌, set, Option, none, some, arith, and_field,
  Bool-cases, inl, inr,
}
use symex_vp.Instr.Fields
use symex_vp.Instr.Mapping.{Mapping, undef}
use symex_vp.Iss.Hart.{Result, returned, aborted}
use symex_vp.Iss.Action.{Action}
use symex_vp.Core.Clover.{Clover}
use symex_vp.Core.State.{State}
use symex_vp.Core.Interface.{Memory, Environment}
use symex_vp.Core.RegFile
use symex_vp.Core.Semantics.{Semantics, Is}
use symex_vp.Core.Operands.{rd, write_rd}
use symex_vp.Core.Execute.Integer.{integer_result}
use symex_vp.Core.Isa.{isa}
use symex_vp.Core.Refines.{HasOperands, Agrees, integer_result-isa}
use symex_vp.Core.Execute.Jump.{execute_jump}
use symex_vp.Core.Execute.Transfer.{execute_transfer}
use symex_vp.Core.Execute.System.{execute_system}
use symex_vp.Core.Execute.Multiply.{execute_multiply}
use symex_vp.Core.Execute.Atomic.{execute_atomic}
use symex_vp.Core.Step.{execute, is_undef, first}

undef-isa : (op : Mapping) (i pc x y : ℕ) → is_undef op ≡ true → isa op i pc x y ≡ none
unfolding isa
undef-isa undef i pc x y h = refl
undef-isa op i pc x y h = cc

module _ (k : Clover) (sem : Semantics k) (D : Type 0) (s : State k.Value D) where
  -- The state with a value of 32 bits in the destination that stands for `z`.
  abbrev pub Holds : ℕ → Result (Unit {0}) × State k.Value D → Type 0
  Holds z out =
      (v : k.Value) × Is k sem.value v 32 z
      × (out ≡ (returned tt, record s { regs = set s.regs (rd k s) v }))

  rd-le : leb (rd k s) 31 ≡ true
  unfolding Fields.rd
  rd-le = ground (arith, and_field 7 5 s.hart.instr)

  short_lem :
      (v : k.Value)
      → ltb (k.get_width v) 32 ≡ true
      → RegFile.write k (rd k s) v s.regs ≡ some (set s.regs (rd k s) (k.zext 32 v))
  unfolding RegFile.write
  short_lem v h = rw (rd-le, h) refl

  word_lem :
      (v : k.Value)
      → k.get_width v ≡ 32
      → RegFile.write k (rd k s) v s.regs ≡ some (set s.regs (rd k s) v)
  unfolding RegFile.write
  word_lem v h = rw (rd-le, h) refl

  stored :
      (v u : k.Value)
      → RegFile.write k (rd k s) v s.regs ≡ some (set s.regs (rd k s) u)
      → write_rd k v s ≡ (returned tt, record s { regs = set s.regs (rd k s) u })
  unfolding write_rd
  stored v u e =
      ap
        (λ (o : Option (List k.Value)).
          (let out : Result (Unit {0}) × State k.Value D = elim o [
            | none ↦ (aborted, s)
            | some regs ↦ (returned tt, record s { regs = regs })
          ] in
            out))
        e

  pub write_rd-Holds :
      (v : k.Value) (w z : ℕ) → w ≤ 32 → Is k sem.value v w z → Holds z (write_rd k v s)
  write_rd-Holds v w z le h = elim (Bool-cases (ltb (k.get_width v) 32)) [
    | inl short ↦
        (k.zext 32 v, sem.zext_is v w 32 z le h, stored v (k.zext 32 v) (short_lem v short))
    | inr long ↦
        (let e : k.get_width v ≡ 32 = ground (arith, h.0) in
          (v, (e, h.1), stored v v (word_lem v e)))
  ]

  agreed :
      (r : Option k.Value) (other : Action (State k.Value D) (Unit {0})) (z : ℕ)
      → Agrees k sem D s r (some z)
      → let out : Result (Unit {0}) × State k.Value D = elim r [
        | some value ↦ write_rd k value s
        | none ↦ other s
      ] in
        Holds z out
  agreed none other z a = elim a [ ]
  agreed (some v) other z a = write_rd-Holds v a.0 z a.1 a.2

  -- With clover's operations as documented (`Semantics`), an integer instruction, whose word,
  -- address and operands are of 32 bits, writes the word that the architecture says to its
  -- destination, and changes nothing else.
  pub execute-isa :
      (mem : Memory (State k.Value D) k.Value) (env : Environment (State k.Value D)) (op : Mapping)
      (x y z : ℕ)
      → HasOperands k sem D s x y
      → isa op s.hart.instr s.hart.last_pc x y ≡ some z
      → Holds z (execute k mem env op s)
  unfolding execute
  execute-isa mem env op x y z o e = elim (Bool-cases (is_undef op)) [
    | inl u ↦ absurd (cc (undef-isa op s.hart.instr s.hart.last_pc x y u))
    | inr d ↦ rw d (
        agreed (integer_result k op s)
          (first (
            execute_jump k op
            ∷ execute_transfer k mem op
            ∷ execute_system k env op
            ∷ execute_multiply k op
            ∷ execute_atomic k mem op
            ∷ []))
          z (rw e at (integer_result-isa k sem D s op x y o)))
  ]
