-- ===== src/Core/Memory/Exclusive.antt =====
-- The bus lock under the accesses of vp/src/core/rv32/mem.h: every store gives it up, and so does the
-- marking of a page table entry by vp/src/core/common/mmu.h.
use symex_vp.Common.{
  ℕ, ◌≡◌, refl, Bool, true, false, if◌then◌else◌, none, some, arith, Bool-cases, inl, inr,
}
use symex_vp.Bus.Lock.{unlock, is_locked_by}
use symex_vp.Iss.Hart.{Result, returned, raised, aborted, SimulationTrap}
use symex_vp.Iss.Action.{Action, pure, skip, ◌>>=◌, ◌>>◌}
use symex_vp.Core.Clover.{Clover}
use symex_vp.Core.State.{State}
use symex_vp.Core.Interface.{Environment}
use symex_vp.Core.Memory.Transaction.{
  Devices, Payload, Reply, hart_id, wait_for_access_rights, atomic_unlock, transact, dmi_store_all,
  concrete_store_data, to_bytes,
}
use symex_vp.Core.Memory.Access.{
  v2p, symbolic_store_data, store_bytes, atomic_store_conditional_word, is_reserved,
}
use symex_vp.Mmu.Walk.{store}

-- What holds of the state if an action returned, and an action that did not return.
abbrev pub Ensures : {S A : Type 0} → (S → Type 0) → Result A × S → Type 0
Ensures Q (returned a, s) = Q s
Ensures Q (raised t, s) = Unit
Ensures Q (aborted, s) = Unit

abbrev pub Fails : {S A : Type 0} → Result A × S → Type 0
Fails (returned a, s) = ⊥
Fails (raised t, s) = Unit
Fails (aborted, s) = Unit

module _ (S : Type 0) (Q : S → Type 0) where
  pub bind-Fails :
      (A B : Type 0) (m : Action S A) (f : A → Action S B) (s : S)
      → Ensures Q (m s)
      → ((a : A) (u : S) → Q u → Fails (f a u))
      → Fails ((m >>= f) s)
  bind-Fails A B m f s e h = go (m s) e
    where
      go : (o : Result A × S) → Ensures Q o → Fails (((λ (_ : S). o) >>= f) s)
      go (returned a, u) q = h a u q
      go (raised t, u) q = tt
      go (aborted, u) q = tt

  pub bind-Ensures :
      (A B : Type 0) (m : Action S A) (f : A → Action S B) (s : S)
      → Ensures Q (m s)
      → ((a : A) (u : S) → Q u → Ensures Q (f a u))
      → Ensures Q ((m >>= f) s)
  bind-Ensures A B m f s e h = go (m s) e
    where
      go : (o : Result A × S) → Ensures Q o → Ensures Q (((λ (_ : S). o) >>= f) s)
      go (returned a, u) q = h a u q
      go (raised t, u) q = tt
      go (aborted, u) q = tt

  -- Whatever was before, an action that always ends well.
  pub last-Ensures :
      (A B : Type 0) (m : Action S A) (f : A → Action S B) (s : S)
      → ((a : A) (u : S) → Ensures Q (f a u))
      → Ensures Q ((m >>= f) s)
  last-Ensures A B m f s h = go (m s)
    where
      go : (o : Result A × S) → Ensures Q (((λ (_ : S). o) >>= f) s)
      go (returned a, u) = h a u
      go (raised t, u) = tt
      go (aborted, u) = tt

module _ (k : Clover) (D : Type 0) (dev : Devices k.Value D)
    (env : Environment (State k.Value D)) where
  abbrev pub holds_bus : State k.Value D → Bool
  holds_bus s = is_locked_by (hart_id dev env s) s.hart.bus_lock

  -- The hart does not hold the bus.
  abbrev pub IsFree : State k.Value D → Type 0
  IsFree s = holds_bus s ≡ false

  pub unlock-IsFree : (s : State k.Value D) → Ensures IsFree (atomic_unlock dev env s)
  unfolding atomic_unlock unlock is_locked_by
  unlock-IsFree s = ground arith

  pub concrete_store-IsFree :
      (size addr value : ℕ) (s : State k.Value D)
      → Ensures IsFree (concrete_store_data dev env size addr value s)
  unfolding concrete_store_data
  concrete_store-IsFree size addr value s =
      let trans : Payload k.Value = record {
        is_write = true;
        address = addr;
        bytes = to_bytes size value;
        extension = none;
      } in
      let write : Bool → Action (State k.Value D) (Unit {0}) =
        λ done. if done then skip else (transact dev env trans >>= λ _. skip) in
      last-Ensures (State k.Value D) IsFree Bool (Unit {0})
        (dmi_store_all dev env dev.dmi_ranges size addr value false)
        (λ done. write done >> atomic_unlock dev env) (wait_for_access_rights dev env s)
        (λ done u.
          last-Ensures (State k.Value D) IsFree (Unit {0}) (Unit {0}) (write done)
            (λ _. atomic_unlock dev env) u (λ _ t. unlock-IsFree t))

  pub store_bytes-IsFree :
      (n : ℕ) (a v : k.Value) (s : State k.Value D) → Ensures IsFree (store_bytes k dev env n a v s)
  unfolding store_bytes symbolic_store_data
  store_bytes-IsFree n a v s =
      let trans : ℕ → Payload k.Value = λ paddr. record {
        is_write = true;
        address = paddr;
        bytes = k.bvc_to_bytes n v;
        extension = some v;
      } in
      last-Ensures (State k.Value D) IsFree ℕ (Unit {0}) (v2p k dev env (k.concrete a) store)
        (λ paddr. transact dev env (trans paddr) >>= λ _. atomic_unlock dev env)
        (wait_for_access_rights dev env s)
        (λ paddr u.
          last-Ensures (State k.Value D) IsFree (Reply k.Value) (Unit {0})
            (transact dev env (trans paddr)) (λ _. atomic_unlock dev env) u
            (λ _ t. unlock-IsFree t))

  -- How SC.W may end from `s`: a holder of the bus with the reservation of this address stores, and may
  -- meet a trap or an error; any other fails and changes no device.
  pub data StoresOrFails (a : k.Value) (s : State k.Value D)
      : Result Bool × State k.Value D → Type 0 where
    stored :
        {t : State k.Value D}
        → holds_bus s ≡ true
        → is_reserved k dev env a s.lr_addr ≡ true
        → IsFree t
        → StoresOrFails a s (returned true, t)
    failed :
        {t : State k.Value D}
        → t.devices ≡ s.devices
        → IsFree t
        → StoresOrFails a s (returned false, t)
    trapped :
        {e : SimulationTrap} {t : State k.Value D}
        → holds_bus s ≡ true
        → is_reserved k dev env a s.lr_addr ≡ true
        → StoresOrFails a s (raised e, t)
    stopped :
        {t : State k.Value D}
        → holds_bus s ≡ true
        → is_reserved k dev env a s.lr_addr ≡ true
        → StoresOrFails a s (aborted, t)

  -- SC.W through the memory interface goes to the memory only for a hart that holds the bus with a
  -- reservation of the address; for any other it says that it failed, and no device has changed.
  -- Whenever it returns, the hart does not have the bus.
  pub atomic_store_conditional-StoresOrFails :
      (a v : k.Value) (s : State k.Value D)
      → StoresOrFails a s (atomic_store_conditional_word k dev env a v s)
  unfolding atomic_store_conditional_word
  atomic_store_conditional-StoresOrFails a v s = elim (Bool-cases (holds_bus s)) [
    | inr free ↦ rw free (failed refl free)
    | inl held ↦ (elim (Bool-cases (is_reserved k dev env a s.lr_addr)) [
      | inr other ↦ rw (held, other) (freed (unlock-IsFree s))
      | inl same ↦
          rw (held, same)
            (go held same (store_bytes k dev env 4 a v s) (store_bytes-IsFree 4 a v s))
    ])
  ]
    where
      freed :
          Ensures IsFree (atomic_unlock dev env s)
          → StoresOrFails a s ((atomic_unlock dev env >> pure false) s)
      freed q = failed refl q

      go :
          holds_bus s ≡ true
          → is_reserved k dev env a s.lr_addr ≡ true
          → (o : Result (Unit {0}) × State k.Value D) → Ensures IsFree o
          → StoresOrFails a s (((λ (_ : State k.Value D). o) >> pure true) s)
      go held same (returned u, t) q = stored held same q
      go held same (raised e, t) q = trapped held same
      go held same (aborted, t) q = stopped held same
