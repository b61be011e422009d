-- ===== src/Core/Products.antt =====
-- The multiplications and divisions of vp/src/core/rv32/iss.cpp compute what the architecture says.
use symex_vp.Common.{
  ℕ, ◌+◌, ◌-◌, ◌*◌, ◌/◌, ◌%◌, ◌^◌, ◌≤◌, ◌<◌, ◌≡◌, ◌≢◌, refl, ◌∙◌, ap, Bool, true, false, ◌==◌, ◌&&◌,
  if◌then◌else◌, arith, bit_and, u32, Bool-cases, inl, inr,
}
use native.Mathlib.Nat.{mul_comm}
use symex_vp.Common.{List, ◌∷◌, set}
use symex_vp.Csr.Fields.{has_extension}
use symex_vp.Csr.Register.{misa}
use symex_vp.Iss.Hart.{Result, returned}
use symex_vp.Iss.Action.{Action, ◌>>◌, >>=-returned}
use symex_vp.Core.Clover.{Clover}
use symex_vp.Core.State.{State}
use symex_vp.Core.Semantics.{Semantics, Is}
use symex_vp.Core.Operands.{
  rd, reg1, reg2, m_extension, write_rd, require_isa, track_and_trace_branch,
}
use symex_vp.Core.Execute.Multiply.{
  multiply, divide, is_overflow, reg_zero, reg_uint32_max, reg_int32_min,
}
use symex_vp.Core.Writes.{write_rd-Holds}
use symex_vp.Core.Semantics.{sign_extended, is_negative, flag_of}
use symex_vp.Core.Isa.{upper_product, overflows}

abbrev excess : ℕ
excess = 2 ^ 64 - 2 ^ 32

one_excess :
    (x y : ℕ)
    → x < 2 ^ 32
    → y < 2 ^ 32
    → x * (y + excess) % 2 ^ 64 / 2 ^ 32 % 2 ^ 32 ≡ (x * y / 2 ^ 32 + 2 ^ 33 - x) % 2 ^ 32
one_excess x y hx hy =
    let e : x * (y + excess) ≡ x * y + excess * x = grind arith in omega (arith, e)

two_excess :
    (x y : ℕ)
    → x < 2 ^ 32
    → y < 2 ^ 32
    → (x + excess) * (y + excess) % 2 ^ 64 / 2 ^ 32 % 2 ^ 32
      ≡ (x * y / 2 ^ 32 + 2 ^ 33 - y - x) % 2 ^ 32
two_excess x y hx hy =
    let e : (x + excess) * (y + excess) ≡ x * y + excess * x + excess * y + excess * excess =
      grind arith in
    omega (arith, e)

no_excess :
    (x y : ℕ)
    → x < 2 ^ 32
    → y < 2 ^ 32
    → x * y % 2 ^ 64 / 2 ^ 32 % 2 ^ 32 ≡ (x * y / 2 ^ 32 + 2 ^ 33) % 2 ^ 32
no_excess x y hx hy = omega arith

-- An extended word is the word, or exceeds it by the upper half.
extended :
    (b : Bool) (x : ℕ)
    → (if b then sign_extended 32 64 x else x) ≡ (if b && is_negative 32 x then x + excess else x)
extended true x = ground arith
extended false x = refl

-- The upper half of the 64-bit product of extended words.
pub upper_lem :
    (sx sy : Bool) (x y : ℕ)
    → x < 2 ^ 32
    → y < 2 ^ 32
    → (if sx then sign_extended 32 64 x else x)
        * (if sy then sign_extended 32 64 y else y)
        % 2 ^ 64
        / 2 ^ 32
        % 2 ^ 32
      ≡ upper_product sx sy x y
upper_lem sx sy x y hx hy =
    rw (extended sx x, extended sy y)
      (elim (Bool-cases (sx && is_negative 32 x)) [
        | inl p ↦ (elim (Bool-cases (sy && is_negative 32 y)) [
          | inl q ↦ rw (p, q) (two_excess x y hx hy)
          | inr q ↦
              rw (p, q)
                (ap (λ t. t % 2 ^ 64 / 2 ^ 32 % 2 ^ 32) (mul_comm (x + excess) y)
                  ∙ one_excess y x hy hx
                  ∙ ap (λ t. (t / 2 ^ 32 + 2 ^ 33 - y) % 2 ^ 32) (mul_comm y x)
                  ∙ omega arith)
        ])
        | inr p ↦ (elim (Bool-cases (sy && is_negative 32 y)) [
          | inl q ↦ rw (p, q) (one_excess x y hx hy ∙ omega arith)
          | inr q ↦ rw (p, q) (no_excess x y hx hy ∙ omega arith)
        ])
      ])

-- Its lower half.
pub lower_lem :
    (x y : ℕ)
    → x < 2 ^ 32
    → y < 2 ^ 32
    → sign_extended 32 64 x * sign_extended 32 64 y % 2 ^ 64 / 2 ^ 0 % 2 ^ 32 ≡ u32 (x * y)
lower_lem x y hx hy =
    rw (extended true x, extended true y)
      (elim (Bool-cases (is_negative 32 x)) [
        | inl p ↦ (elim (Bool-cases (is_negative 32 y)) [
          | inl q ↦
              rw (p, q)
                (let e : (x + excess) * (y + excess)
                      ≡ x * y + excess * x + excess * y + excess * excess =
                    grind arith in
                  omega (arith, e))
          | inr q ↦
              rw (p, q)
                (let e : (x + excess) * y ≡ x * y + excess * y = grind arith in omega (arith, e))
        ])
        | inr p ↦ (elim (Bool-cases (is_negative 32 y)) [
          | inl q ↦
              rw (p, q)
                (let e : x * (y + excess) ≡ x * y + excess * x = grind arith in omega (arith, e))
          | inr q ↦ rw (p, q) (omega arith)
        ])
      ])

module _ (k : Clover) (sem : Semantics k) (D : Type 0) (s : State k.Value D) where
  -- The state with a value of 32 bits in the destination that stands for `z`, and with what was traced.
  abbrev pub Leaves : ℕ → Result (Unit {0}) × State k.Value D → Type 0
  Leaves z out =
      (v : k.Value) × (b : List (Bool × k.Value × ℕ)) × Is k sem.value v 32 z
      × (out ≡ (returned tt, record s { regs = set s.regs (rd k s) v; branches = b }))

  present :
      has_extension (s.hart.csrs misa) m_extension ≡ true
      → require_isa k m_extension s ≡ (returned tt, s)
  unfolding require_isa
  present m = rw m refl

  pub multiply-Leaves :
      (f g : k.Value → k.Value) (offset x y fx gy z : ℕ)
      → has_extension (s.hart.csrs misa) m_extension ≡ true
      → offset + 32 ≤ 64
      → Is k sem.value (f (reg1 k s)) 64 fx
      → Is k sem.value (g (reg2 k s)) 64 gy
      → fx * gy % 2 ^ 64 / 2 ^ offset % 2 ^ 32 ≡ z
      → Leaves z (multiply k f g offset s)
  unfolding multiply
  multiply-Leaves f g offset x y fx gy z m le hf hg e =
      let p : Is k sem.value (k.mul (f (reg1 k s)) (g (reg2 k s))) 64 (fx * gy % 2 ^ 64) =
        sem.mul_is (f (reg1 k s)) (g (reg2 k s)) 64 fx gy hf hg in
      let q : Is k sem.value (k.extract offset 32 (k.mul (f (reg1 k s)) (g (reg2 k s)))) 32
          (fx * gy % 2 ^ 64 / 2 ^ offset % 2 ^ 32) =
        sem.extract_is (k.mul (f (reg1 k s)) (g (reg2 k s))) 64 offset 32 (fx * gy % 2 ^ 64) le p in
      let (v, h, r) =
        write_rd-Holds k sem D s (k.extract offset 32 (k.mul (f (reg1 k s)) (g (reg2 k s)))) 32 z
          (omega arith) (q.0, q.1 ∙ e) in
      (
        v,
        s.branches,
        h,
        >>=-returned (require_isa k m_extension)
              (λ _. λ t. write_rd k (k.extract offset 32 (k.mul (f (reg1 k t)) (g (reg2 k t)))) t) s
              s tt (present m)
            ∙ r,
      )

  track_lem :
      (cond : Bool) (e : k.Value) (t : State k.Value D)
      → (b : List (Bool × k.Value × ℕ)) × (track_and_trace_branch k cond e t
          ≡ (returned tt, record t { branches = b }))
  unfolding track_and_trace_branch
  track_lem cond e t = elim (Bool-cases (k.has_symbolic e)) [
    | inl y ↦ ((cond, e, t.hart.last_pc) ∷ t.branches, rw y refl)
    | inr n ↦ (t.branches, rw n refl)
  ]

  pub zero-Is : Is k sem.value (reg_zero k) 32 0
  zero-Is = sem.bvc_is 0 (omega arith)

  is_zero_lem :
      (y : ℕ) → Is k sem.value (reg2 k s) 32 y → k.is_true (k.eq (reg2 k s) (reg_zero k)) ≡ (y == 0)
  is_zero_lem y h =
      sem.is_true_is (k.eq (reg2 k s) (reg_zero k)) (flag_of (y == 0))
        (sem.eq_is (reg2 k s) (reg_zero k) 32 y 0 h zero-Is)
      ∙ elim (Bool-cases (y == 0)) [ inl e ↦ rw e refl | inr e ↦ rw e refl ]

  pub divide-Leaves :
      (f : k.Value → k.Value) (g : k.Value → k.Value → k.Value) (x y p q : ℕ)
      → has_extension (s.hart.csrs misa) m_extension ≡ true
      → Is k sem.value (reg2 k s) 32 y
      → Is k sem.value (f (reg1 k s)) 32 p
      → (y ≢ 0 → Is k sem.value (g (reg1 k s) (reg2 k s)) 32 q)
      → Leaves (if y == 0 then p else q) (divide k f g s)
  unfolding divide
  divide-Leaves f g x y p q m hy hf hg =
      let c : Bool = k.is_true (k.eq (reg2 k s) (reg_zero k)) in
      let ans : k.Value = if c then f (reg1 k s) else g (reg1 k s) (reg2 k s) in
      let body : State k.Value D → Action (State k.Value D) (Unit {0}) = λ t.
        write_rd k (
          if k.is_true (k.eq (reg2 k t) (reg_zero k))
          then f (reg1 k t)
          else g (reg1 k t) (reg2 k t))
        >> track_and_trace_branch k (k.is_true (k.eq (reg2 k t) (reg_zero k)))
            (k.eq (reg2 k t) (reg_zero k)) in
      let result : Is k sem.value ans 32 (if y == 0 then p else q) =
        rw (is_zero_lem y hy) (answer (f (reg1 k s)) (g (reg1 k s) (reg2 k s)) y p q hf hg) in
      let (v, h, r) =
        write_rd-Holds k sem D s ans 32 (if y == 0 then p else q) (omega arith) result in
      let t : State k.Value D = record s { regs = set s.regs (rd k s) v } in
      let (b, track) = track_lem c (k.eq (reg2 k s) (reg_zero k)) t in
      (
        v,
        b,
        h,
        >>=-returned (require_isa k m_extension) (λ _. λ u. body u u) s s tt (present m)
            ∙ >>=-returned (write_rd k ans)
                (λ _. track_and_trace_branch k c (k.eq (reg2 k s) (reg_zero k))) s t tt r
            ∙ track,
      )
    where
      answer :
          (a b : k.Value) (y p q : ℕ)
          → Is k sem.value a 32 p
          → (y ≢ 0 → Is k sem.value b 32 q)
          → Is k sem.value (if y == 0 then a else b) 32 (if y == 0 then p else q)
      answer a b y p q ha hb = elim (Bool-cases (y == 0)) [
        | inl e ↦ rw e ha
        | inr e ↦ rw e (hb (λ z. ground arith))
      ]

  overflow_lem :
      (x y : ℕ)
      → Is k sem.value (reg1 k s) 32 x
      → Is k sem.value (reg2 k s) 32 y
      → Is k sem.value (is_overflow k (reg1 k s) (reg2 k s)) 1 (flag_of (overflows x y))
  unfolding is_overflow
  overflow_lem x y hx hy =
      let r : Is k sem.value (is_overflow k (reg1 k s) (reg2 k s)) 1
          (bit_and (flag_of (x == 2 ^ 31)) (flag_of (y == 2 ^ 32 - 1))) =
        sem.band_is (k.eq (reg1 k s) (reg_int32_min k)) (k.eq (reg2 k s) (reg_uint32_max k)) 1
          (flag_of (x == 2 ^ 31)) (flag_of (y == 2 ^ 32 - 1))
          (sem.eq_is (reg1 k s) (reg_int32_min k) 32 x (2 ^ 31) hx
            (sem.bvc_is (2 ^ 31) (omega arith)))
          (sem.eq_is (reg2 k s) (reg_uint32_max k) 32 y (2 ^ 32 - 1) hy
            (sem.bvc_is (2 ^ 32 - 1) (omega arith))) in
      (r.0, r.1 ∙ both (x == 2 ^ 31) (y == 2 ^ 32 - 1))
    where
      both : (a b : Bool) → bit_and (flag_of a) (flag_of b) ≡ flag_of (a && b)
      both true true = refl
      both true false = refl
      both false true = refl
      both false false = refl

  pub chosen :
      (x y p q : ℕ) (a b : k.Value)
      → Is k sem.value (reg1 k s) 32 x
      → Is k sem.value (reg2 k s) 32 y
      → Is k sem.value a 32 p
      → Is k sem.value b 32 q
      → Is k sem.value
          (k.select (is_overflow k (reg1 k s) (reg2 k s)) a b)
          32
          (if overflows x y then p else q)
  chosen x y p q a b hx hy ha hb =
      let r : Is k sem.value (k.select (is_overflow k (reg1 k s) (reg2 k s)) a b) 32
          (if flag_of (overflows x y) == 1 then p else q) =
        sem.select_is (is_overflow k (reg1 k s) (reg2 k s)) a b 32 (flag_of (overflows x y)) p q
          (overflow_lem x y hx hy) ha hb in
      (r.0, r.1 ∙ elim (Bool-cases (overflows x y)) [ inl e ↦ rw e refl | inr e ↦ rw e refl ])
