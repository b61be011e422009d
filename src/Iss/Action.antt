-- ===== src/Iss/Action.antt =====
-- Functions of the hart that change a state and may throw: what the state is at the throw stays.
use symex_vp.Common.{Bool, if◌then◌else◌, ℕ, ◌≡◌, ap}
use symex_vp.Iss.Hart.{Result, returned, raised, aborted, SimulationTrap}

abbrev pub Action : Type 0 → Type 0 → Type 0
Action S A = S → Result A × S

module _ {S : Type 0} {A : Type 0} where
  abbrev pub pure : A → Action S A
  pure a s = (returned a, s)

  -- `raise_trap`
  abbrev pub raise_trap : ℕ → ℕ → Action S A
  raise_trap exc mtval s = (raised (record { reason = exc; mtval = mtval }), s)

  abbrev pub abort : Action S A
  abort s = (aborted, s)

  abbrev pub gets : (S → A) → Action S A
  gets f s = (returned (f s), s)

  -- A function of this kind on the state, and one that leaves the state.
  abbrev pub lift : (S → Result A) → Action S A
  lift f s = (f s, s)

infixl 5 ◌>>=◌ ◌>>◌
abbrev pub ◌>>=◌ : {S A B : Type 0} → Action S A → (A → Action S B) → Action S B
◌>>=◌ m f s =
    let (r, s') = m s in
    elim r [ returned a ↦ f a s' | raised t ↦ (raised t, s') | aborted ↦ (aborted, s') ]

abbrev pub ◌>>◌ : {S B : Type 0} → Action S (Unit {0}) → Action S B → Action S B
m >> k = m >>= λ _. k

module _ {S : Type 0} where
  abbrev pub skip : Action S (Unit {0})
  skip = pure tt

  abbrev pub modify : (S → S) → Action S (Unit {0})
  modify f s = (returned tt, f s)

  abbrev pub raise_if : Bool → ℕ → ℕ → Action S (Unit {0})
  raise_if b exc mtval = if b then raise_trap exc mtval else skip

  -- `assert`
  abbrev pub assert : Bool → Action S (Unit {0})
  assert b = if b then skip else abort

module _ {S A B : Type 0} (m : Action S A) (f : A → Action S B) (s s' : S) where
  pub >>=-returned : (a : A) → m s ≡ (returned a, s') → (m >>= f) s ≡ f a s'
  >>=-returned a e = ap (λ (q : Result A × S). ((λ _. q) >>= f) s) e

  pub >>=-raised : (t : SimulationTrap) → m s ≡ (raised t, s') → (m >>= f) s ≡ (raised t, s')
  >>=-raised t e = ap (λ (q : Result A × S). ((λ _. q) >>= f) s) e

  pub >>=-aborted : m s ≡ (aborted, s') → (m >>= f) s ≡ (aborted, s')
  >>=-aborted e = ap (λ (q : Result A × S). ((λ _. q) >>= f) s) e
