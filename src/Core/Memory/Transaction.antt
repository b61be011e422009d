-- ===== src/Core/Memory/Transaction.antt =====
-- The transactions of `CombinedMemoryInterface` in vp/src/core/rv32/mem.h with concrete data, the
-- direct access of vp/src/core/common/dmi.h, and the waits for the bus lock.
use symex_vp.Common.{
  ℕ, zero, suc, ◌+◌, ◌*◌, ◌/◌, ◌%◌, ◌^◌, Bool, true, false, ◌&&◌, not, leb, ltb, if◌then◌else◌,
  List, [], ◌∷◌, replicate, Option, none, some,
}
use symex_vp.Bus.Lock.{BusLock, lock, unlock, is_locked_by}
use symex_vp.Csr.Register.{mhartid}
use symex_vp.Iss.Hart.{returned, aborted}
use symex_vp.Iss.Action.{Action, pure, raise_trap, skip, ◌>>=◌, ◌>>◌}
use symex_vp.Mmu.Walk.{exc_load_page_fault, exc_store_amo_page_fault}
use symex_vp.Core.State.{State}
use symex_vp.Core.Interface.{Environment}

pub record DmiRange : Type 0 where
  pub start : ℕ
  pub end : ℕ

unfoldable pub contains : DmiRange → ℕ → Bool
contains r addr = leb r.start addr && ltb addr r.end

-- What `tlm_generic_payload` carries to a device, and back: the address is the one that the target saw.
pub record Payload (V : Type 0) : Type 0 where
  pub is_write : Bool
  pub address : ℕ
  pub bytes : List ℕ
  pub extension : Option V

pub record Reply (V : Type 0) : Type 0 where
  pub is_error : Bool
  pub address : ℕ
  pub bytes : List ℕ
  pub extension : Option V

-- The bus and the devices behind it, with the memory that is mapped for direct access.
pub record Devices (V : Type 0) (D : Type 0) : Type 0 where
  pub b_transport : Payload V → D → Reply V × D
  pub dmi_ranges : List DmiRange
  pub dmi_load : DmiRange → ℕ → ℕ → D → ℕ
  pub dmi_store : DmiRange → ℕ → ℕ → ℕ → D → D

-- A number of `n` bytes in memory, the lowest first.
abbrev pub to_bytes : ℕ → ℕ → List ℕ
to_bytes zero x = []
to_bytes (suc n) x = x % 2 ^ 8 ∷ to_bytes n (x / 2 ^ 8)

abbrev pub of_bytes : List ℕ → ℕ
of_bytes [] = 0
of_bytes (b ∷ bytes) = b % 2 ^ 8 + 2 ^ 8 * of_bytes bytes

module _ {V : Type 0} {D : Type 0} (dev : Devices V D) (env : Environment (State V D)) where
  abbrev pub hart_id : State V D → ℕ
  hart_id s = s.hart.csrs mhartid

  abbrev pub set_lock : BusLock → State V D → State V D
  set_lock b s = record s { hart = record s.hart { bus_lock = b } }

  unfoldable pub wait_for_access_rights : State V D → State V D
  wait_for_access_rights s =
      if s.hart.bus_lock.locked && not (is_locked_by (hart_id s) s.hart.bus_lock)
      then env.wait_until_unlocked s
      else s

  -- `bus_lock->lock(iss.get_hart_id())`: the assertion fails if the bus is still another's after the
  -- wait.
  unfoldable pub lock_bus : Action (State V D) (Unit {0})
  unfolding wait_for_access_rights
  lock_bus s =
      let t = wait_for_access_rights s in
      elim (lock (hart_id t) t.hart.bus_lock) [
        | none ↦ (aborted, t)
        | some b ↦ (returned tt, set_lock b t)
      ]

  unfoldable pub atomic_unlock : Action (State V D) (Unit {0})
  atomic_unlock s = (returned tt, set_lock (unlock (hart_id s) s.hart.bus_lock) s)

  -- `_do_transaction(trans)`
  unfoldable pub transact : Payload V → Action (State V D) (Reply V)
  transact trans s =
      let (reply, devices) = dev.b_transport trans s.devices in
      let done = record s { devices = devices } in
      if reply.is_error
      then raise_trap (if trans.is_write then exc_store_amo_page_fault else exc_load_page_fault)
          reply.address done
      else (returned reply, done)

  -- The first range that has the address is read; a range that ends within the data is an assertion.
  unfoldable pub dmi_find : List DmiRange → ℕ → Option DmiRange
  unfolding contains
  dmi_find [] addr = none
  dmi_find (r ∷ ranges) addr = if contains r addr then some r else dmi_find ranges addr

  unfoldable pub concrete_load_data : ℕ → ℕ → Action (State V D) ℕ
  unfolding wait_for_access_rights dmi_find transact
  concrete_load_data size addr s =
      let t = wait_for_access_rights s in
      elim (dmi_find dev.dmi_ranges addr) [
        | some r ↦
            if leb (addr + size) r.end
            then (returned (dev.dmi_load r addr size t.devices), t)
            else (aborted, t)
        | none ↦
            (transact (record {
              is_write = false;
              address = addr;
              bytes = replicate size 0;
              extension = none;
            })
                >>= λ reply. pure (of_bytes reply.bytes))
              t
      ]

  -- Every range that has the address is written.
  unfoldable pub dmi_store_all : List DmiRange → ℕ → ℕ → ℕ → Bool → Action (State V D) Bool
  unfolding contains
  dmi_store_all [] size addr value done s = (returned done, s)
  dmi_store_all (r ∷ ranges) size addr value done s =
      let missed = dmi_store_all ranges size addr value done s in
      let written =
        dmi_store_all ranges size addr value true
          (record s { devices = dev.dmi_store r addr size value s.devices }) in
      if contains r addr
      then (if leb (addr + size) r.end then written else (aborted, s))
      else missed

  unfoldable pub concrete_store_data : ℕ → ℕ → ℕ → Action (State V D) (Unit {0})
  unfolding wait_for_access_rights dmi_store_all transact atomic_unlock
  concrete_store_data size addr value s =
      (dmi_store_all dev.dmi_ranges size addr value false >>= λ done.
      (if done
        then skip
        else (transact (record {
          is_write = true;
          address = addr;
          bytes = to_bytes size value;
          extension = none;
        })
            >>= λ _. skip))
      >> atomic_unlock)
        (wait_for_access_rights s)
