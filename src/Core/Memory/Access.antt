-- ===== src/Core/Memory/Access.antt =====
-- The loads and stores of `CombinedMemoryInterface` in vp/src/core/rv32/mem.h, and the interfaces that
-- it implements.
use symex_vp.Common.{ℕ, Bool, true, false, ltb, if◌then◌else◌, replicate, Option, none, some}
use symex_vp.Bus.Lock.{is_locked_by}
use symex_vp.Iss.Hart.{returned}
use symex_vp.Iss.Action.{Action, pure, modify, assert, ◌>>=◌, ◌>>◌}
use symex_vp.Mmu.Walk.{MemoryAccessType, fetch, store, MmuMemory}
use symex_vp.Core.Clover.{Clover}
use symex_vp.Core.State.{State}
use symex_vp.Core.Interface.{Memory, Environment}
use symex_vp.Core.Memory.Transaction.{
  Devices, Reply, hart_id, wait_for_access_rights, lock_bus, atomic_unlock, transact,
  concrete_load_data, concrete_store_data,
}
use symex_vp.Core.Memory.Translate.{translate_virtual_to_physical_addr}

module _ (k : Clover) {D : Type 0} (dev : Devices k.Value D)
    (env : Environment (State k.Value D)) where
  -- The page table is read and written without translation.
  abbrev pub page_table : MmuMemory (State k.Value D)
  page_table = record {
    mmu_load_pte32 = concrete_load_data dev env 4;
    mmu_load_pte64 = concrete_load_data dev env 8;
    mmu_store_pte32 = concrete_store_data dev env 4;
  }

  unfoldable pub v2p : ℕ → MemoryAccessType → Action (State k.Value D) ℕ
  unfolding translate_virtual_to_physical_addr concrete_load_data concrete_store_data
  v2p vaddr type s =
      if s.has_mmu
      then translate_virtual_to_physical_addr page_table vaddr type s
      else (returned vaddr, s)

  unfoldable pub load_instr : ℕ → Action (State k.Value D) ℕ
  unfolding v2p concrete_load_data
  load_instr addr = v2p addr fetch >>= concrete_load_data dev env 4

  unfoldable pub symbolic_store_data : k.Value → k.Value → ℕ → Action (State k.Value D) (Unit {0})
  unfolding v2p transact atomic_unlock wait_for_access_rights
  symbolic_store_data addr value num_bytes s =
      (v2p (k.concrete addr) store >>= λ paddr.
      transact dev env (record {
        is_write = true;
        address = paddr;
        bytes = k.bvc_to_bytes num_bytes value;
        extension = some value;
      })
      >>= λ _. atomic_unlock dev env)
        (wait_for_access_rights dev env s)

  -- The value of a read: the extension, or else the bytes.
  abbrev pub received : Reply k.Value → k.Value
  received reply = elim reply.extension [ none ↦ k.bvc_of_bytes reply.bytes | some value ↦ value ]

  -- The address is translated as that of a store, as the source has it.
  unfoldable pub symbolic_load_data : k.Value → ℕ → Action (State k.Value D) k.Value
  unfolding v2p transact wait_for_access_rights
  symbolic_load_data addr num_bytes s =
      (v2p (k.concrete addr) store >>= λ paddr.
      transact dev env (record {
        is_write = false;
        address = paddr;
        bytes = replicate num_bytes 0;
        extension = none;
      })
      >>= λ reply. pure (received reply))
        (wait_for_access_rights dev env s)

  unfoldable pub load_signed : ℕ → k.Value → Action (State k.Value D) k.Value
  unfolding symbolic_load_data
  load_signed num_bytes addr = symbolic_load_data addr num_bytes >>= λ v. pure (k.sext 32 v)

  unfoldable pub load_unsigned : ℕ → k.Value → Action (State k.Value D) k.Value
  unfolding symbolic_load_data
  load_unsigned num_bytes addr = symbolic_load_data addr num_bytes >>= λ v.
      pure (if ltb (k.get_width v) 32 then k.zext 32 v else v)

  unfoldable pub store_bytes : ℕ → k.Value → k.Value → Action (State k.Value D) (Unit {0})
  unfolding symbolic_store_data
  store_bytes num_bytes addr value = symbolic_store_data addr value num_bytes

  unfoldable pub atomic_load_word : k.Value → Action (State k.Value D) k.Value
  unfolding lock_bus load_signed
  atomic_load_word addr = lock_bus dev env >> load_signed 4 addr

  unfoldable pub atomic_store_word : k.Value → k.Value → Action (State k.Value D) (Unit {0})
  unfolding store_bytes
  atomic_store_word addr value s =
      (assert (is_locked_by (hart_id dev env s) s.hart.bus_lock) >> store_bytes 4 addr value) s

  unfoldable pub atomic_load_reserved_word : k.Value → Action (State k.Value D) k.Value
  unfolding lock_bus load_signed
  atomic_load_reserved_word addr =
      lock_bus dev env >> (modify (λ s. record s { lr_addr = some addr }) >> load_signed 4 addr)

  -- `addr == lr_addr` compares pointers.
  abbrev pub is_reserved : k.Value → Option k.Value → Bool
  is_reserved addr none = false
  is_reserved addr (some a) = k.is_same addr a

  unfoldable pub atomic_store_conditional_word : k.Value → k.Value → Action (State k.Value D) Bool
  unfolding store_bytes atomic_unlock
  atomic_store_conditional_word addr value s =
      if is_locked_by (hart_id dev env s) s.hart.bus_lock
      then (if is_reserved addr s.lr_addr
          then (store_bytes 4 addr value >> pure true) s
          else (atomic_unlock dev env >> pure false) s)
      else (returned false, s)

  -- The interfaces of the hart.
  unfoldable pub combined : Memory (State k.Value D) k.Value
  unfolding load_instr load_signed load_unsigned store_bytes atomic_load_word atomic_store_word
      atomic_load_reserved_word atomic_store_conditional_word
  combined = record {
    load_instr = load_instr;
    load_word = load_signed 4;
    load_half = load_signed 2;
    load_byte = load_signed 1;
    load_uhalf = load_unsigned 2;
    load_ubyte = load_unsigned 1;
    store_word = store_bytes 4;
    store_half = store_bytes 2;
    store_byte = store_bytes 1;
    atomic_load_word = atomic_load_word;
    atomic_store_word = atomic_store_word;
    atomic_load_reserved_word = atomic_load_reserved_word;
    atomic_store_conditional_word = atomic_store_conditional_word;
  }
