-- ===== src/Iss/Keeps.antt =====
-- Actions that keep a property of the state, however they end.
use symex_vp.Common.{Bool, true, false, if◌then◌else◌, ℕ, Option, none, some}
use symex_vp.Iss.Hart.{Result, returned, raised, aborted}
use symex_vp.Iss.Action.{Action, ◌>>=◌, ◌>>◌, raise_if, modify, skip}

module _ {S : Type 0} (P : S → Type 0) where
  pub record Keeps {A : Type 0} (m : Action S A) : Type 0 where
    pub kept : (s : S) → P s → P (m s).1

  pub bind-Keeps :
      {A B : Type 0} (m : Action S A) (f : A → Action S B)
      → Keeps m
      → ((a : A) → Keeps (f a))
      → Keeps (m >>= f)
  bind-Keeps {A} {B} m f h g = record { kept = λ s p. go (m s) (h.kept s p) }
    where
      go : (r : Result A × S) → P r.1 → P (((λ (_ : S). r) >>= f) r.1).1
      go (returned a, t) p = (g a).kept t p
      go (raised e, t) p = p
      go (aborted, t) p = p

  pub then-Keeps :
      {B : Type 0} (m : Action S (Unit {0})) (n : Action S B) → Keeps m → Keeps n → Keeps (m >> n)
  then-Keeps m n h g = bind-Keeps m (λ _. n) h (λ _. g)

  pub if-Keeps :
      {A : Type 0} (b : Bool) (m n : Action S A) → Keeps m → Keeps n → Keeps (if b then m else n)
  if-Keeps true m n h g = h
  if-Keeps false m n h g = g

  pub raise_if-Keeps : (b : Bool) (exc mtval : ℕ) → Keeps (raise_if b exc mtval)
  raise_if-Keeps true exc mtval = record { kept = λ s p. p }
  raise_if-Keeps false exc mtval = record { kept = λ s p. p }

  pub skip-Keeps : Keeps skip
  skip-Keeps = record { kept = λ s p. p }

  pub modify-Keeps : (f : S → S) → ((s : S) → P s → P (f s)) → Keeps (modify f)
  modify-Keeps f h = record { kept = h }

  -- An action that first looks at the state.
  pub look-Keeps : {A : Type 0} (f : S → Action S A) → ((s : S) → Keeps (f s)) → Keeps (λ s. f s s)
  look-Keeps f h = record { kept = λ s p. (h s).kept s p }

  -- An action that may be missing.
  abbrev pub AllKeep : {A : Type 0} → Option (Action S A) → Type 0
  AllKeep none = Unit
  AllKeep (some m) = Keeps m
