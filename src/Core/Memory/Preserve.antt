-- ===== src/Core/Memory/Preserve.antt =====
-- The memory interface of vp/src/core/rv32/mem.h keeps the register file: what the hart relies on.
use symex_vp.Common.{
  ℕ, ◌+◌, Bool, true, false, ◌&&◌, not, leb, if◌then◌else◌, if_cases, List, [], ◌∷◌, replicate,
  Option, none, some,
}
use symex_vp.Bus.Lock.{BusLock, lock, is_locked_by}
use symex_vp.Iss.Hart.{Result, returned, aborted}
use symex_vp.Iss.Action.{Action, pure, skip, raise_trap, ◌>>=◌, ◌>>◌}
use symex_vp.Iss.Keeps.{Keeps, bind-Keeps, then-Keeps, if-Keeps, skip-Keeps}
use symex_vp.Mmu.Walk.{exc_load_page_fault, exc_store_amo_page_fault}
use symex_vp.Core.Clover.{Clover}
use symex_vp.Core.State.{State}
use symex_vp.Core.Interface.{Environment}
use symex_vp.Core.Preserve.{HasFile, EnvironmentKeeps}
use symex_vp.Core.Memory.Transaction.{
  Devices, DmiRange, Payload, Reply, contains, hart_id, set_lock, wait_for_access_rights, lock_bus,
  atomic_unlock, transact, dmi_find, concrete_load_data, dmi_store_all, concrete_store_data,
  of_bytes, to_bytes,
}

module _ (k : Clover) (D : Type 0) (dev : Devices k.Value D) (env : Environment (State k.Value D))
    (ek : EnvironmentKeeps (HasFile k {D = D}) env) where
  abbrev P : State k.Value D → Type 0
  P = HasFile k

  abbrev Kept : {A : Type 0} → Action (State k.Value D) A → Type 0
  Kept m = Keeps P m

  pub waited : (s : State k.Value D) → P s → P (wait_for_access_rights dev env s)
  unfolding wait_for_access_rights
  waited s p =
      if_cases P (s.hart.bus_lock.locked && not (is_locked_by (hart_id dev env s) s.hart.bus_lock))
        (env.wait_until_unlocked s) s (λ _. ek.wait_until_unlocked s p) (λ _. p)

  -- An action after the wait for the bus.
  pub after_wait :
      {A : Type 0} (m : Action (State k.Value D) A)
      → Kept m
      → Kept (λ s. m (wait_for_access_rights dev env s))
  after_wait m h = record { kept = λ s p. h.kept (wait_for_access_rights dev env s) (waited s p) }

  pub lock-Keeps : Kept (lock_bus dev env)
  unfolding lock_bus
  lock-Keeps = record {
    kept = λ s p.
        (let t : State k.Value D = wait_for_access_rights dev env s in
          go t (waited s p) (lock (hart_id dev env t) t.hart.bus_lock));
  }
    where
      go :
          (t : State k.Value D)
          → P t
          → (o : Option BusLock)
          → let out : Result (Unit {0}) × State k.Value D = elim o [
            | none ↦ (aborted, t)
            | some b ↦ (returned tt, set_lock dev env b t)
          ] in
            P out.1
      go t p none = p
      go t p (some b) = p

  pub unlock-Keeps : Kept (atomic_unlock dev env)
  unfolding atomic_unlock
  unlock-Keeps = record { kept = λ s p. p }

  pub transact-Keeps : (trans : Payload k.Value) → Kept (transact dev env trans)
  unfolding transact
  transact-Keeps trans = record { kept = λ s p. go s p (dev.b_transport trans s.devices) }
    where
      go :
          (s : State k.Value D)
          → P s
          → (o : Reply k.Value × D)
          → P
              (if o.0.is_error
                then raise_trap {A = Reply k.Value}
                    (if trans.is_write then exc_store_amo_page_fault else exc_load_page_fault)
                    o.0.address
                    (record s { devices = o.1 })
                else (returned o.0, record s { devices = o.1 })).1
      go s p (reply, d) =
          if_cases (λ (out : Result (Reply k.Value) × State k.Value D). P out.1) reply.is_error _ _
            (λ _. p) (λ _. p)

  pub concrete_load-Keeps : (size addr : ℕ) → Kept (concrete_load_data dev env size addr)
  unfolding concrete_load_data
  concrete_load-Keeps size addr = record {
    kept = λ s p.
        go (wait_for_access_rights dev env s) (waited s p) (dmi_find dev env dev.dmi_ranges addr);
  }
    where
      plain : Action (State k.Value D) ℕ
      plain =
          transact dev env (record {
            is_write = false;
            address = addr;
            bytes = replicate size 0;
            extension = none;
          })
          >>= λ reply. pure (of_bytes reply.bytes)

      go :
          (t : State k.Value D)
          → P t
          → (o : Option DmiRange)
          → let out : Result ℕ × State k.Value D = elim o [
            | some r ↦
                if leb (addr + size) r.end
                then (returned (dev.dmi_load r addr size t.devices), t)
                else (aborted, t)
            | none ↦ plain t
          ] in
            P out.1
      go t p none =
          (bind-Keeps P
              (transact dev env (record {
                is_write = false;
                address = addr;
                bytes = replicate size 0;
                extension = none;
              }))
              (λ reply. pure (of_bytes reply.bytes)) (transact-Keeps _)
              (λ reply. record { kept = λ s p. p })).kept
            t p
      go t p (some r) =
          if_cases (λ (out : Result ℕ × State k.Value D). P out.1) (leb (addr + size) r.end) _ _
            (λ _. p) (λ _. p)

  dmi_store-Keeps :
      (ranges : List DmiRange) (size addr value : ℕ) (done : Bool)
      → Kept (dmi_store_all dev env ranges size addr value done)
  unfolding dmi_store_all
  dmi_store-Keeps [] size addr value done = record { kept = λ s p. p }
  dmi_store-Keeps (r ∷ ranges) size addr value done = record {
    kept = λ s p.
        if_cases (λ (out : Result Bool × State k.Value D). P out.1) (contains r addr) _ _
          (λ _.
            if_cases (λ (out : Result Bool × State k.Value D). P out.1) (leb (addr + size) r.end) _
              _
              (λ _.
                (dmi_store-Keeps ranges size addr value true).kept
                  (record s { devices = dev.dmi_store r addr size value s.devices }) p)
              (λ _. p))
          (λ _. (dmi_store-Keeps ranges size addr value done).kept s p);
  }

  pub concrete_store-Keeps :
      (size addr value : ℕ) → Kept (concrete_store_data dev env size addr value)
  unfolding concrete_store_data
  concrete_store-Keeps size addr value =
      let trans : Payload k.Value = record {
        is_write = true;
        address = addr;
        bytes = to_bytes size value;
        extension = none;
      } in
      let write : Bool → Action (State k.Value D) (Unit {0}) =
        λ done. if done then skip else (transact dev env trans >>= λ _. skip) in
      after_wait
        (dmi_store_all dev env dev.dmi_ranges size addr value false >>= λ done.
          write done >> atomic_unlock dev env)
        (bind-Keeps P (dmi_store_all dev env dev.dmi_ranges size addr value false)
          (λ done. write done >> atomic_unlock dev env)
          (dmi_store-Keeps dev.dmi_ranges size addr value false)
          (λ done.
            then-Keeps P (write done) (atomic_unlock dev env)
              (if-Keeps P done skip (transact dev env trans >>= λ _. skip) (skip-Keeps P) (
                bind-Keeps P (transact dev env trans) (λ _. skip) (transact-Keeps trans)
                  (λ _. skip-Keeps P)))
              unlock-Keeps))
