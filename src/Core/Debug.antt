-- ===== src/Core/Debug.antt =====
-- What the debugger and the loader see of a hart: `debug_target_if` as vp/src/core/rv32/iss.cpp
-- implements it, and `init`.
use symex_vp.Common.{
  ℕ, ◌^◌, ◌<◌, ◌≤◌, ◌≡◌, refl, ◌∙◌, ap, Bool, true, false, not, ◌==◌, ltb, leb, u32, if◌then◌else◌,
  List, [], ◌∷◌, set, get_or, none, some, arith, Bool-cases, inl, inr, get_or-set_self,
  get_or-set_ne, ==→eq,
}
use symex_vp.Csr.Register.{mhartid}
use symex_vp.Iss.Hart.{returned, aborted}
use symex_vp.Iss.Action.{Action}
use symex_vp.Core.Clover.{Clover}
use symex_vp.Core.State.{State, CoreExecStatus, set_pc}
use symex_vp.Core.RegFile
use symex_vp.Core.Registers.{Widths, IsFile}

-- The members of `breakpoints` are 32-bit addresses.
unfoldable pub insert_breakpoint : ℕ → List ℕ → List ℕ
insert_breakpoint addr breakpoints = u32 addr ∷ breakpoints

unfoldable pub remove_breakpoint : ℕ → List ℕ → List ℕ
remove_breakpoint addr [] = []
remove_breakpoint addr (b ∷ breakpoints) =
    let rest = remove_breakpoint addr breakpoints in if b == u32 addr then rest else b ∷ rest

abbrev pub concretes : (k : Clover) → List k.Value → List ℕ
concretes k [] = []
concretes k (v ∷ regs) = k.concrete v ∷ concretes k regs

module _ (k : Clover) {D : Type 0} where
  unfoldable pub sys_exit : State k.Value D → State k.Value D
  sys_exit s = record s { shall_exit = true }

  -- A register that is not there is an exception.
  unfoldable pub read_register : ℕ → Action (State k.Value D) ℕ
  unfolding RegFile.read
  read_register idx s = elim (RegFile.read k idx s.regs) [
    | none ↦ (aborted, s)
    | some reg ↦ (returned (k.concrete reg), s)
  ]

  unfoldable pub write_register : ℕ → ℕ → Action (State k.Value D) (Unit {0})
  unfolding RegFile.write
  write_register idx value s =
      if leb (2 ^ 32) value
      then (aborted, s)
      else elim (RegFile.write k idx (k.bvc (u32 value)) s.regs) [
        | none ↦ (aborted, s)
        | some regs ↦ (returned tt, record s { regs = regs })
      ]

  unfoldable pub get_progam_counter : State k.Value D → ℕ
  get_progam_counter s = s.hart.pc

  unfoldable pub block_on_wfi : Bool → State k.Value D → State k.Value D
  block_on_wfi block s = record s { ignore_wfi = not block }

  unfoldable pub get_status : State k.Value D → CoreExecStatus
  get_status s = s.status

  unfoldable pub set_status : CoreExecStatus → State k.Value D → State k.Value D
  set_status status s = record s { status = status }

  unfoldable pub enable_debug : State k.Value D → State k.Value D
  enable_debug s = record s { debug_mode = true }

  unfoldable pub get_hart_id : State k.Value D → ℕ
  get_hart_id s = s.hart.csrs mhartid

  unfoldable pub get_registers : State k.Value D → List ℕ
  get_registers s = concretes k s.regs

  -- The stack pointer, x2, and the entry.
  unfoldable pub init : ℕ → ℕ → Action (State k.Value D) (Unit {0})
  unfolding RegFile.write
  init entrypoint sp s = elim (RegFile.write k 2 (k.bvc sp) s.regs) [
    | none ↦ (aborted, s)
    | some regs ↦ (returned tt, set_pc entrypoint (record s { regs = regs }))
  ]

module _ (k : Clover) (w : Widths k) (D : Type 0) (s : State k.Value D) (f : IsFile k s.regs) where
  leb_lem : (a b : ℕ) → a ≤ b → leb a b ≡ true
  leb_lem a b h = ground arith

  over_lem : (a b : ℕ) → b < a → leb a b ≡ false
  over_lem a b h = ground arith

  over : (i : ℕ) → i ≤ 31 → ltb 31 i ≡ false
  over i h = ground arith

  read_lem :
      (i : ℕ) (t : State k.Value D)
      → i ≤ 31
      → read_register k i t ≡ (returned (k.concrete (get_or t.regs i (k.bvc 0))), t)
  unfolding read_register RegFile.read RegFile.element
  read_lem i t le = rw (over i le, read_register) refl

  -- With clover's widths as documented (`Widths`), in a well-formed register file: a write of a
  -- 32-bit value to one of the 32 registers succeeds, and afterwards that register reads as the
  -- value and every other one as before.
  pub read_register-write_register :
      (idx other value : ℕ)
      → idx ≤ 31
      → other ≤ 31
      → value < 2 ^ 32
      → (t : State k.Value D) × (write_register k idx value s ≡ (returned tt, t))
        × (read_register k other t ≡ (
          returned (if other == idx then value else k.concrete (RegFile.element k s.regs other)),
          t,
        ))
  unfolding write_register RegFile.write RegFile.element
  read_register-write_register idx other value le le' small =
      let t : State k.Value D = record s { regs = set s.regs idx (k.bvc value) } in
      let e : u32 value ≡ value = omega arith in
      let small_enough : leb (2 ^ 32) value ≡ false = over_lem (2 ^ 32) value small in
      let self : get_or (set s.regs idx (k.bvc value)) idx (k.bvc 0) ≡ k.bvc value =
        get_or-set_self s.regs idx (k.bvc value) (k.bvc 0) (omega (arith, f.size)) in
      (
        t,
        rw (small_enough, leb_lem idx 31 le, e, w.width_bvc value) refl,
        read_lem other t le'
            ∙ ap (λ n. (returned n, t))
                (elim (Bool-cases (other == idx)) [
                  | inl e ↦
                      rw (e, ==→eq other idx e) (ap k.concrete self ∙ w.concrete_bvc value small)
                  | inr ne ↦ rw ne (
                      ap k.concrete (
                        get_or-set_ne s.regs idx other (k.bvc value) (k.bvc 0) (λ e. ground arith)))
                ]),
      )
