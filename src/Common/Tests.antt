-- ===== src/Common/Tests.antt =====
-- Boolean tests on numbers, the conditional, and case splits that keep their equation.
use Prim.Native.Nat.{ℕ, zero, suc, ◌≤◌, ◌<◌, compare, Ordering}
use mathlib.Core.Path.{◌≡◌, refl}
use mathlib.Core.Logic.{◌⊎◌, inl, inr, ◌≢◌}
use mathlib.Core.Bool.{Bool, true, false}
use mathlib.Core.Option.{Option, none, some}
use mathlib.Core.List.{List, [], ◌∷◌}
use native.Mathlib.Omega.{arith}

abbrev pub ltb : ℕ → ℕ → Bool
ltb a b = elim (compare a b) [ Ordering.lt ↦ true | _ ↦ false ]

abbrev pub leb : ℕ → ℕ → Bool
leb a b = elim (compare a b) [ Ordering.gt ↦ false | _ ↦ true ]

infix 50 ◌==◌ ◌!=◌
abbrev pub ◌==◌ : ℕ → ℕ → Bool
a == b = elim (compare a b) [ Ordering.eq ↦ true | _ ↦ false ]

abbrev pub ◌!=◌ : ℕ → ℕ → Bool
a != b = elim (compare a b) [ Ordering.eq ↦ false | _ ↦ true ]

infix 1 if◌then◌else◌
abbrev pub if◌then◌else◌ {ℓ} : {A : Type ℓ} → Bool → A → A → A
if true then x else y = x
if false then x else y = y

pub ltb→lt : (a b : ℕ) → ltb a b ≡ true → a < b
ltb→lt a b h = ground arith

pub lt→ltb : (a b : ℕ) → a < b → ltb a b ≡ true
lt→ltb a b h = ground arith

pub leb→le : (a b : ℕ) → leb a b ≡ true → a ≤ b
leb→le a b h = ground arith

pub ==→eq : (a b : ℕ) → (a == b) ≡ true → a ≡ b
==→eq a b h = ground arith

pub ne→== : (a b : ℕ) → a ≢ b → (a == b) ≡ false
ne→== a b h = ground arith

pub Bool-cases : (b : Bool) → (b ≡ true) ⊎ (b ≡ false)
Bool-cases true = inl refl
Bool-cases false = inr refl

pub Option-cases {ℓ} : {A : Type ℓ} (o : Option A) → (o ≡ none) ⊎ ((a : A) × (o ≡ some a))
Option-cases none = inl refl
Option-cases (some a) = inr (a, refl)

-- Over a small range, check every value by evaluation.
unfoldable pub all_below : ℕ → (ℕ → Bool) → Bool
all_below zero p = true
all_below (suc n) p = elim (p n) [ true ↦ all_below n p | false ↦ false ]

-- Each value of the range passed the test.
pub in_range : (p : ℕ → Bool) (x n : ℕ) → x < n → all_below n p ≡ true → p x ≡ true
unfolding all_below
in_range p x zero lt h = absurd (omega arith)
in_range p x (suc n) lt h = ground (arith, in_range p x n)

-- A `switch` whose cases all return: the first case with the value, or the default.
unfoldable pub switch {ℓ} : {A : Type ℓ} → ℕ → List (ℕ × A) → A → A
switch x [] d = d
switch x ((k, r) ∷ cases) d = if x == k then r else switch x cases d

-- What holds of both branches, each under its condition, holds of the conditional.
pub if_cases {ℓ κ} :
    {A : Type ℓ} (P : A → Type κ) (b : Bool) (x y : A)
    → (b ≡ true → P x)
    → (b ≡ false → P y)
    → P (if b then x else y)
if_cases P true x y f g = f refl
if_cases P false x y f g = g refl

-- What holds of every case under its value, and of the default, holds of the `switch`.
infixr 20 ◌also◌
pub data Each {ℓ} {A : Type ℓ} (P : A → Type 0) (x : ℕ) : List (ℕ × A) → Type ℓ where
  no_more : Each P x []
  ◌also◌ :
      {k : ℕ} {v : A} {cases : List (ℕ × A)}
      → (x ≡ k → P v)
      → Each P x cases
      → Each P x ((k, v) ∷ cases)

pub switch_cases {ℓ} :
    {A : Type ℓ} (P : A → Type 0) (x : ℕ) (cases : List (ℕ × A)) (d : A)
    → Each P x cases
    → P d
    → P (switch x cases d)
unfolding switch
switch_cases P x [] d no_more p = p
switch_cases P x ((k, v) ∷ cases) d (at_k also each) p =
    if_cases P (x == k) v (switch x cases d) (λ e. at_k (==→eq x k e))
      (λ _. switch_cases P x cases d each p)
