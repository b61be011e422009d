-- ===== src/Core/Concrete.antt =====
-- Values without a symbolic part, as an implementation of what is used of clover: pairs of a width and
-- a number.
use symex_vp.Common.{
  ℕ, ◌+◌, ◌-◌, ◌*◌, ◌/◌, ◌%◌, ◌^◌, ◌≡◌, refl, ap, ap₂, ◌∙◌, Bool, false, ◌&&◌, ◌==◌, ltb, not,
  if◌then◌else◌, bit_and, bit_or, bit_xor, arith,
}
use symex_vp.Core.Clover.{Clover}
use symex_vp.Core.Registers.{Widths}
use symex_vp.Core.Memory.Transaction.{of_bytes, to_bytes}
use symex_vp.Core.Semantics.{
  Semantics, Is, flag_of, signed_less, sign_extended, shifted_signed, signed_quotient,
  signed_remainder,
}

abbrev binary : (ℕ → ℕ → ℕ → ℕ) → ℕ × ℕ → ℕ × ℕ → ℕ × ℕ
binary f a b = (a.0, f a.0 a.1 b.1)

abbrev test : (ℕ → ℕ → ℕ → Bool) → ℕ × ℕ → ℕ × ℕ → ℕ × ℕ
test f a b = (1, flag_of (f a.0 a.1 b.1))

abbrev pub bits : Clover
bits = record {
  Value = ℕ × ℕ;
  bvc = λ x. (32, x % 2 ^ 32);
  bvc_of_bytes = λ bytes. (32, of_bytes bytes % 2 ^ 32);
  bvc_to_bytes = λ n v. to_bytes n v.1;
  concrete = λ v. v.1 % 2 ^ 32;
  is_true = λ v. v.1 == 1;
  has_symbolic = λ v. false;
  get_width = λ v. v.0;
  is_same = λ a b. (a.0 == b.0) && (a.1 == b.1);
  add = binary (λ w x y. (x + y) % 2 ^ w);
  sub = binary (λ w x y. (x + 2 ^ w - y) % 2 ^ w);
  mul = binary (λ w x y. x * y % 2 ^ w);
  udiv = binary (λ w x y. x / y);
  sdiv = binary signed_quotient;
  urem = binary (λ w x y. x % y);
  srem = binary signed_remainder;
  band = binary (λ w x y. bit_and x y);
  bor = binary (λ w x y. bit_or x y);
  bxor = binary (λ w x y. bit_xor x y);
  lshl = binary (λ w x y. x * 2 ^ y % 2 ^ w);
  lshr = binary (λ w x y. x / 2 ^ y);
  ashr = binary shifted_signed;
  eq = test (λ w x y. x == y);
  ne = test (λ w x y. not (x == y));
  slt = test signed_less;
  sge = test (λ w x y. not (signed_less w x y));
  ult = test (λ w x y. ltb x y);
  uge = test (λ w x y. not (ltb x y));
  select = λ c a b. (a.0, if c.1 == 1 then a.1 else b.1);
  sext = λ n a. (n, sign_extended a.0 n a.1);
  zext = λ n a. (n, a.1);
  extract = λ o n a. (n, a.1 / 2 ^ o % 2 ^ n);
}

pub bits_widths : Widths bits
bits_widths = record {
  width_bvc = λ x. refl;
  concrete_bvc = λ x h. omega arith;
  width_zext = λ w v le. refl;
}

-- An operation on the numbers alone is what it says.
binary-Is :
    (f : ℕ → ℕ → ℕ → ℕ) (a b : ℕ × ℕ) (w x y : ℕ)
    → Is bits (λ v. v.1) a w x
    → Is bits (λ v. v.1) b w y
    → Is bits (λ v. v.1) (binary f a b) w (f w x y)
binary-Is f a b w x y h g = (h.0, ap₂ (f a.0) h.1 g.1 ∙ ap (λ n. f n x y) h.0)

test-Is :
    (f : ℕ → ℕ → ℕ → Bool) (a b : ℕ × ℕ) (w x y : ℕ)
    → Is bits (λ v. v.1) a w x
    → Is bits (λ v. v.1) b w y
    → Is bits (λ v. v.1) (test f a b) 1 (flag_of (f w x y))
test-Is f a b w x y h g = (refl, ap flag_of (ap₂ (f a.0) h.1 g.1 ∙ ap (λ n. f n x y) h.0))

pub bits_semantics : Semantics bits
bits_semantics = record {
  value = λ v. v.1;
  bvc_is = λ x h. (refl, omega arith);
  concrete_is = λ v x small h. omega (arith, h.1);
  is_true_is = λ v x h. ap (λ t. t == 1) h.1;
  add_is = binary-Is (λ w x y. (x + y) % 2 ^ w);
  sub_is = binary-Is (λ w x y. (x + 2 ^ w - y) % 2 ^ w);
  mul_is = binary-Is (λ w x y. x * y % 2 ^ w);
  udiv_is = λ a b w x y ne. binary-Is (λ w x y. x / y) a b w x y;
  urem_is = λ a b w x y ne. binary-Is (λ w x y. x % y) a b w x y;
  sdiv_is = λ a b w x y ne. binary-Is signed_quotient a b w x y;
  srem_is = λ a b w x y ne. binary-Is signed_remainder a b w x y;
  band_is = binary-Is (λ w x y. bit_and x y);
  bor_is = binary-Is (λ w x y. bit_or x y);
  bxor_is = binary-Is (λ w x y. bit_xor x y);
  lshl_is = binary-Is (λ w x y. x * 2 ^ y % 2 ^ w);
  lshr_is = binary-Is (λ w x y. x / 2 ^ y);
  ashr_is = binary-Is shifted_signed;
  eq_is = test-Is (λ w x y. x == y);
  ne_is = test-Is (λ w x y. not (x == y));
  slt_is = test-Is signed_less;
  sge_is = test-Is (λ w x y. not (signed_less w x y));
  ult_is = test-Is (λ w x y. ltb x y);
  uge_is = test-Is (λ w x y. not (ltb x y));
  select_is = λ c a b w z x y hc ha hb. (
    ha.0,
    ap₂ (λ p q. if c.1 == 1 then p else q) ha.1 hb.1 ∙ ap (λ t. if t == 1 then x else y) hc.1,
  );
  sext_is = λ a w n x le h. (refl, ap₂ (λ p q. sign_extended p n q) h.0 h.1);
  zext_is = λ a w n x le h. (refl, h.1);
  extract_is = λ a w o n x le h. (refl, ap (λ t. t / 2 ^ o % 2 ^ n) h.1);
}

-- What a pair of numbers is as a value.
pub bits-Is : (v : ℕ × ℕ) (w x : ℕ) → v.0 ≡ w → v.1 ≡ x → Is bits bits_semantics.value v w x
unfolding bits_semantics
bits-Is v w x e f = (e, f)
