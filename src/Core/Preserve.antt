-- ===== src/Core/Preserve.antt =====
-- The instructions of `ISS::exec_step` in vp/src/core/rv32/iss.cpp keep the register file.
pub mod Accesses
pub mod System
pub mod Steps
pub mod Run
use symex_vp.Common.{
  ℕ, ◌*◌, ◌/◌, ◌≡◌, add32, Bool, true, false, not, truth, bit_and, ◌&&◌, ◌==◌, ◌!=◌, if◌then◌else◌,
  List, [], ◌∷◌, Option, none, some, arith, if_cases, switch, switch_cases, no_more, ◌also◌,
  Bool-cases, inl, inr,
}
use symex_vp.Csr.Fields.{has_extension}
use symex_vp.Csr.Register.{misa}
use symex_vp.Instr.Fields.{b_imm, i_imm, j_imm}
use symex_vp.Instr.Mapping.{
  Mapping, jal, jalr, beq, bne, blt, bge, bltu, bgeu, mul, mulh, mulhu, mulhsu, div, divu, rem,
  remu,
}
use symex_vp.Iss.Hart.{Hart, Result, returned, raised, aborted}
use symex_vp.Iss.Action.{Action, modify, skip, raise_if, ◌>>=◌, ◌>>◌}
use symex_vp.Iss.Keeps.{
  Keeps, bind-Keeps, then-Keeps, if-Keeps, raise_if-Keeps, skip-Keeps, modify-Keeps, look-Keeps,
  AllKeep,
}
use symex_vp.Core.Clover.{Clover}
use symex_vp.Core.State.{State, on_hart, set_pc}
use symex_vp.Core.Interface.{Memory, Environment}
use symex_vp.Core.RegFile
use symex_vp.Core.Registers.{Widths, IsFile, IsWritten, write-IsFile}
use symex_vp.Core.Operands.{
  rd, reg1, reg2, write_rd, require_isa, trap_check_pc_alignment, trap_check_addr_alignment,
  track_and_trace_branch, illegal, m_extension,
}
use symex_vp.Core.Execute.Multiply.{
  multiply, divide, execute_multiply, reg_zero, reg_uint32_max, is_overflow,
}
use symex_vp.Core.Execute.Jump.{jump, branch, execute_jump}

-- The register file of a state.
abbrev pub HasFile : (k : Clover) → {D : Type 0} → State k.Value D → Type 0
HasFile k s = IsFile k s.regs

module _ (k : Clover) (w : Widths k) (D : Type 0) where
  abbrev P : State k.Value D → Type 0
  P = HasFile k

  abbrev Kept : {A : Type 0} → Action (State k.Value D) A → Type 0
  Kept m = Keeps P m

  pub write_rd-Keeps : (v : k.Value) → Kept (write_rd k v)
  unfolding write_rd
  write_rd-Keeps v = record {
    kept = λ s f. go s f (RegFile.write k (rd k s) v s.regs) (write-IsFile k w (rd k s) v s.regs f);
  }
    where
      go :
          (s : State k.Value D)
          → IsFile k s.regs
          → (r : Option (List k.Value)) → IsWritten k r
          → let out : Result (Unit {0}) × State k.Value D = elim r [
            | none ↦ (aborted, s)
            | some regs ↦ (returned tt, record s { regs = regs })
          ] in
            HasFile k out.1
      go s f none h = f
      go s f (some regs) h = h

  pub require_isa-Keeps : (e : ℕ) → Kept (require_isa k e)
  unfolding require_isa
  require_isa-Keeps e = record {
    kept = λ s f.
        if_cases (λ (out : Result (Unit {0}) × State k.Value D). HasFile k out.1)
          (has_extension (s.hart.csrs misa) e) _ _ (λ _. f) (λ _. f);
  }

  pub pc_alignment-Keeps : Kept (trap_check_pc_alignment k)
  unfolding trap_check_pc_alignment
  pc_alignment-Keeps = record { kept = λ s f. ground (arith, f) }

  pub addr_alignment-Keeps :
      (n : ℕ) (l : Bool) (v : k.Value) → Kept (trap_check_addr_alignment k n l v)
  unfolding trap_check_addr_alignment
  addr_alignment-Keeps n l v = raise_if-Keeps P _ _ _

  pub track-Keeps : (c : Bool) (v : k.Value) → Kept (track_and_trace_branch k c v)
  unfolding track_and_trace_branch
  track-Keeps c v = record { kept = λ s f. ground (arith, f) }

  pub jump-Keeps : (t : State k.Value D → ℕ) → Kept (jump k t)
  unfolding jump
  jump-Keeps t = record {
    kept = λ s f.
        (then-Keeps P (modify (set_pc (t s)))
            (trap_check_pc_alignment k >> write_rd k (k.bvc s.hart.pc))
            (modify-Keeps P _ (λ u p. p))
            (then-Keeps P _ _ pc_alignment-Keeps (write_rd-Keeps _))).kept
          s f;
  }

  pub branch-Keeps : (c : k.Value → k.Value → k.Value) → Kept (branch k c)
  unfolding branch
  branch-Keeps c = record {
    kept = λ s f.
        (then-Keeps P
            (if k.is_true (c (reg1 k s) (reg2 k s))
              then (modify (set_pc (add32 s.hart.last_pc (b_imm s.hart.instr)))
                  >> trap_check_pc_alignment k)
              else skip)
            (track_and_trace_branch k (k.is_true (c (reg1 k s) (reg2 k s)))
              (c (reg1 k s) (reg2 k s)))
            (if-Keeps P (k.is_true (c (reg1 k s) (reg2 k s)))
              (modify (set_pc (add32 s.hart.last_pc (b_imm s.hart.instr)))
                >> trap_check_pc_alignment k)
              skip
              (then-Keeps P (modify (set_pc (add32 s.hart.last_pc (b_imm s.hart.instr))))
                (trap_check_pc_alignment k)
                (modify-Keeps P (set_pc (add32 s.hart.last_pc (b_imm s.hart.instr))) (λ u p. p))
                pc_alignment-Keeps)
              (skip-Keeps P))
            (track-Keeps _ _)).kept
          s f;
  }

  pub jumps-Keeps : (op : Mapping) → AllKeep P (execute_jump k op)
  unfolding execute_jump
  jumps-Keeps jal = jump-Keeps (λ s. add32 s.hart.last_pc (j_imm s.hart.instr))
  jumps-Keeps jalr = jump-Keeps (λ s. add32 (k.concrete (reg1 k s)) (i_imm s.hart.instr) / 2 * 2)
  jumps-Keeps beq = branch-Keeps k.eq
  jumps-Keeps bne = branch-Keeps k.ne
  jumps-Keeps blt = branch-Keeps k.slt
  jumps-Keeps bge = branch-Keeps k.sge
  jumps-Keeps bltu = branch-Keeps k.ult
  jumps-Keeps bgeu = branch-Keeps k.uge
  jumps-Keeps op = tt

  multiply-Keeps : (f g : k.Value → k.Value) (offset : ℕ) → Kept (multiply k f g offset)
  unfolding multiply
  multiply-Keeps f g offset =
      then-Keeps P (require_isa k m_extension)
        (λ s. write_rd k (k.extract offset 32 (k.mul (f (reg1 k s)) (g (reg2 k s)))) s)
        (require_isa-Keeps m_extension)
        (look-Keeps P (λ s. write_rd k (k.extract offset 32 (k.mul (f (reg1 k s)) (g (reg2 k s)))))
          (λ s. write_rd-Keeps _))

  -- A division as an action for given operands.
  abbrev division :
      (k.Value → k.Value)
      → (k.Value → k.Value → k.Value)
      → k.Value
      → k.Value
      → Action (State k.Value D) (Unit {0})
  division at_zero quotient a b =
      write_rd k (if k.is_true (k.eq b (reg_zero k)) then at_zero a else quotient a b)
      >> track_and_trace_branch k (k.is_true (k.eq b (reg_zero k))) (k.eq b (reg_zero k))

  divide-Keeps : (f : k.Value → k.Value) (g : k.Value → k.Value → k.Value) → Kept (divide k f g)
  unfolding divide
  divide-Keeps f g =
      then-Keeps P (require_isa k m_extension) (λ s. division f g (reg1 k s) (reg2 k s) s)
        (require_isa-Keeps m_extension)
        (look-Keeps P (λ s. division f g (reg1 k s) (reg2 k s))
          (λ s.
            then-Keeps P
              (write_rd k (
                if k.is_true (k.eq (reg2 k s) (reg_zero k))
                then f (reg1 k s)
                else g (reg1 k s) (reg2 k s)))
              (track_and_trace_branch k (k.is_true (k.eq (reg2 k s) (reg_zero k)))
                (k.eq (reg2 k s) (reg_zero k)))
              (write_rd-Keeps _) (track-Keeps _ _)))

  pub products-Keep : (op : Mapping) → AllKeep P (execute_multiply k op)
  unfolding execute_multiply
  products-Keep mul = multiply-Keeps (k.sext 64) (k.sext 64) 0
  products-Keep mulh = multiply-Keeps (k.sext 64) (k.sext 64) 32
  products-Keep mulhu = multiply-Keeps (k.zext 64) (k.zext 64) 32
  products-Keep mulhsu = multiply-Keeps (k.sext 64) (k.zext 64) 32
  products-Keep div =
      divide-Keeps (λ _. reg_uint32_max k) (λ a b. k.select (is_overflow k a b) a (k.sdiv a b))
  products-Keep divu = divide-Keeps (λ _. reg_uint32_max k) k.udiv
  products-Keep rem =
      divide-Keeps (λ a. a) (λ a b. k.select (is_overflow k a b) (reg_zero k) (k.srem a b))
  products-Keep remu = divide-Keeps (λ a. a) k.urem
  products-Keep op = tt

-- What the hart relies on of its memory interface: it does not touch the registers.
pub record MemoryKeeps {S : Type 0} {V : Type 0} (P : S → Type 0) (mem : Memory S V) : Type 0 where
  pub load_instr : (a : ℕ) → Keeps P (mem.load_instr a)
  pub load_word : (a : V) → Keeps P (mem.load_word a)
  pub load_half : (a : V) → Keeps P (mem.load_half a)
  pub load_byte : (a : V) → Keeps P (mem.load_byte a)
  pub load_uhalf : (a : V) → Keeps P (mem.load_uhalf a)
  pub load_ubyte : (a : V) → Keeps P (mem.load_ubyte a)
  pub store_word : (a v : V) → Keeps P (mem.store_word a v)
  pub store_half : (a v : V) → Keeps P (mem.store_half a v)
  pub store_byte : (a v : V) → Keeps P (mem.store_byte a v)
  pub atomic_load_word : (a : V) → Keeps P (mem.atomic_load_word a)
  pub atomic_store_word : (a v : V) → Keeps P (mem.atomic_store_word a v)
  pub atomic_load_reserved_word : (a : V) → Keeps P (mem.atomic_load_reserved_word a)
  pub atomic_store_conditional_word : (a v : V) → Keeps P (mem.atomic_store_conditional_word a v)

-- And of its environment.
pub record EnvironmentKeeps {S : Type 0} (P : S → Type 0) (env : Environment S) : Type 0 where
  pub wait_until_unlocked : (s : S) → P s → P (env.wait_until_unlocked s)
  pub wait_for_event : (s : S) → P s → P (env.wait_for_event s)
  pub sync : (s : S) → P s → P (env.sync s)
