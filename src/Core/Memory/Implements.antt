-- ===== src/Core/Memory/Implements.antt =====
-- The memory interface of vp/src/core/rv32/mem.h keeps the register file, with the
-- translation of vp/src/core/common/mmu.h: what the hart relies on.
use symex_vp.Common.{
  ℕ, ◌/◌, ◌%◌, ◌^◌, Bool, true, false, not, ◌==◌, leb, ltb, if◌then◌else◌, if_cases, replicate,
  none, some,
}
use symex_vp.Bus.Lock.{is_locked_by}
use symex_vp.Iss.Hart.{Result, machine_mode}
use symex_vp.Iss.Action.{Action, pure, skip, abort, modify, assert, ◌>>=◌, ◌>>◌}
use symex_vp.Iss.Keeps.{
  Keeps, bind-Keeps, then-Keeps, if-Keeps, skip-Keeps, modify-Keeps, look-Keeps,
}
use symex_vp.Mmu.Walk.{MemoryAccessType, fetch, store, walk, pgshift}
use symex_vp.Mmu.Keeps.{walk-Keeps}
use symex_vp.Core.Clover.{Clover}
use symex_vp.Core.State.{State}
use symex_vp.Core.Interface.{Environment}
use symex_vp.Core.Preserve.{HasFile, MemoryKeeps, EnvironmentKeeps}
use symex_vp.Core.Memory.Transaction.{
  Devices, Payload, hart_id, lock_bus, atomic_unlock, transact, concrete_load_data,
}
use symex_vp.Core.Memory.Translate.{
  translate_virtual_to_physical_addr, access_mode, control, satp_mode, kept_page, insert,
}
use symex_vp.Core.Memory.Access.{
  page_table, v2p, load_instr, symbolic_store_data, symbolic_load_data, received, load_signed,
  load_unsigned, store_bytes, atomic_load_word, atomic_store_word, atomic_load_reserved_word,
  atomic_store_conditional_word, is_reserved, combined,
}
use symex_vp.Core.Memory.Preserve.{
  after_wait, lock-Keeps, unlock-Keeps, transact-Keeps, concrete_load-Keeps, concrete_store-Keeps,
}

module _ (k : Clover) (D : Type 0) (dev : Devices k.Value D) (env : Environment (State k.Value D))
    (ek : EnvironmentKeeps (HasFile k {D = D}) env) where
  abbrev P : State k.Value D → Type 0
  P = HasFile k

  abbrev Kept : {A : Type 0} → Action (State k.Value D) A → Type 0
  Kept m = Keeps P m

  abbrev filled : ℕ → MemoryAccessType → ℕ → ℕ → Action (State k.Value D) ℕ
  filled mode t vpn paddr =
      modify (λ s. record s {
        tlb = insert mode t (vpn % 256) (record { ppn = kept_page paddr; vpn = vpn }) s.tlb;
      })
      >> pure paddr

  filled-Keeps : (mode : ℕ) (t : MemoryAccessType) (vpn paddr : ℕ) → Kept (filled mode t vpn paddr)
  filled-Keeps mode t vpn paddr = record { kept = λ s p. p }

  translate-Keeps :
      (v : ℕ) (t : MemoryAccessType)
      → Kept (translate_virtual_to_physical_addr (page_table k dev env) v t)
  unfolding translate_virtual_to_physical_addr
  translate-Keeps v t =
      let walked : State k.Value D → Action (State k.Value D) ℕ = λ s.
        walk (page_table k dev env) (control s) 32 v t (access_mode t s)
        >>= filled (access_mode t s) t (v / 2 ^ pgshift) in
      let kept_walk : (s : State k.Value D) → Kept (walked s) = λ s.
        bind-Keeps P (walk (page_table k dev env) (control s) 32 v t (access_mode t s))
          (filled (access_mode t s) t (v / 2 ^ pgshift))
          (walk-Keeps (State k.Value D) P (page_table k dev env) (control s)
            (concrete_load-Keeps k D dev env ek 4) (concrete_load-Keeps k D dev env ek 8)
            (concrete_store-Keeps k D dev env ek 4) 32 v t (access_mode t s))
          (filled-Keeps (access_mode t s) t (v / 2 ^ pgshift)) in
      let Good : Result ℕ × State k.Value D → Type 0 = λ out. P out.1 in
      record {
        kept = λ s p.
            if_cases Good (satp_mode s.hart == 0) _ _ (λ _. p)
              (λ _.
                if_cases Good (access_mode t s == machine_mode) _ _ (λ _. p)
                  (λ _.
                    if_cases Good (not (leb (access_mode t s) 1)) _ _ (λ _. p)
                      (λ _.
                        if_cases Good
                          ((s.tlb (access_mode t s) t (v / 2 ^ pgshift % 256)).vpn
                            == v / 2 ^ pgshift)
                          _ _ (λ _. p) (λ _. (kept_walk s).kept s p))));
      }

  v2p-Keeps : (v : ℕ) (t : MemoryAccessType) → Kept (v2p k dev env v t)
  unfolding v2p
  v2p-Keeps v t = record {
    kept = λ s p.
        if_cases (λ (out : Result ℕ × State k.Value D). P out.1) s.has_mmu _ _
          (λ _. (translate-Keeps v t).kept s p) (λ _. p);
  }

  load_instr-Keeps : (a : ℕ) → Kept (load_instr k dev env a)
  unfolding load_instr
  load_instr-Keeps a =
      bind-Keeps P (v2p k dev env a fetch) (concrete_load_data dev env 4) (v2p-Keeps a fetch)
        (concrete_load-Keeps k D dev env ek 4)

  store-Keeps : (n : ℕ) (a v : k.Value) → Kept (store_bytes k dev env n a v)
  unfolding store_bytes symbolic_store_data
  store-Keeps n a v =
      let trans : ℕ → Payload k.Value = λ paddr. record {
        is_write = true;
        address = paddr;
        bytes = k.bvc_to_bytes n v;
        extension = some v;
      } in
      after_wait k D dev env ek
        (v2p k dev env (k.concrete a) store >>= λ paddr.
          transact dev env (trans paddr) >>= λ _. atomic_unlock dev env)
        (bind-Keeps P (v2p k dev env (k.concrete a) store)
          (λ paddr. transact dev env (trans paddr) >>= λ _. atomic_unlock dev env)
          (v2p-Keeps (k.concrete a) store)
          (λ paddr.
            bind-Keeps P (transact dev env (trans paddr)) (λ _. atomic_unlock dev env)
              (transact-Keeps k D dev env ek (trans paddr)) (λ _. unlock-Keeps k D dev env ek)))

  data-Keeps : (a : k.Value) (n : ℕ) → Kept (symbolic_load_data k dev env a n)
  unfolding symbolic_load_data
  data-Keeps a n =
      let trans : ℕ → Payload k.Value = λ paddr. record {
        is_write = false;
        address = paddr;
        bytes = replicate n 0;
        extension = none;
      } in
      after_wait k D dev env ek
        (v2p k dev env (k.concrete a) store >>= λ paddr.
          transact dev env (trans paddr) >>= λ reply. pure (received k dev env reply))
        (bind-Keeps P (v2p k dev env (k.concrete a) store)
          (λ paddr. transact dev env (trans paddr) >>= λ reply. pure (received k dev env reply))
          (v2p-Keeps (k.concrete a) store)
          (λ paddr.
            bind-Keeps P (transact dev env (trans paddr)) (λ reply. pure (received k dev env reply))
              (transact-Keeps k D dev env ek (trans paddr)) (λ reply. record { kept = λ s p. p })))

  signed-Keeps : (n : ℕ) (a : k.Value) → Kept (load_signed k dev env n a)
  unfolding load_signed
  signed-Keeps n a =
      bind-Keeps P (symbolic_load_data k dev env a n) (λ v. pure (k.sext 32 v)) (data-Keeps a n)
        (λ v. record { kept = λ s p. p })

  unsigned-Keeps : (n : ℕ) (a : k.Value) → Kept (load_unsigned k dev env n a)
  unfolding load_unsigned
  unsigned-Keeps n a =
      bind-Keeps P (symbolic_load_data k dev env a n)
        (λ v. pure (if ltb (k.get_width v) 32 then k.zext 32 v else v)) (data-Keeps a n)
        (λ v. record { kept = λ s p. p })

  atomic_load-Keeps : (a : k.Value) → Kept (atomic_load_word k dev env a)
  unfolding atomic_load_word
  atomic_load-Keeps a =
      then-Keeps P (lock_bus dev env) (load_signed k dev env 4 a) (lock-Keeps k D dev env ek)
        (signed-Keeps 4 a)

  atomic_store-Keeps : (a v : k.Value) → Kept (atomic_store_word k dev env a v)
  unfolding atomic_store_word
  atomic_store-Keeps a v =
      look-Keeps P
        (λ s.
          assert (is_locked_by (hart_id dev env s) s.hart.bus_lock) >> store_bytes k dev env 4 a v)
        (λ s.
          then-Keeps P (assert (is_locked_by (hart_id dev env s) s.hart.bus_lock))
            (store_bytes k dev env 4 a v)
            (if-Keeps P (is_locked_by (hart_id dev env s) s.hart.bus_lock) skip abort (skip-Keeps P)
              (record { kept = λ t p. p }))
            (store-Keeps 4 a v))

  reserved-Keeps : (a : k.Value) → Kept (atomic_load_reserved_word k dev env a)
  unfolding atomic_load_reserved_word
  reserved-Keeps a =
      then-Keeps P (lock_bus dev env)
        (modify (λ s. record s { lr_addr = some a }) >> load_signed k dev env 4 a)
        (lock-Keeps k D dev env ek)
        (then-Keeps P (modify (λ s. record s { lr_addr = some a })) (load_signed k dev env 4 a)
          (modify-Keeps P (λ s. record s { lr_addr = some a }) (λ s p. p)) (signed-Keeps 4 a))

  conditional-Keeps : (a v : k.Value) → Kept (atomic_store_conditional_word k dev env a v)
  unfolding atomic_store_conditional_word
  conditional-Keeps a v =
      let Good : Result Bool × State k.Value D → Type 0 = λ out. P out.1 in
      record {
        kept = λ s p.
            if_cases Good (is_locked_by (hart_id dev env s) s.hart.bus_lock) _ _
              (λ _.
                if_cases Good (is_reserved k dev env a s.lr_addr) _ _
                  (λ _.
                    (then-Keeps P (store_bytes k dev env 4 a v) (pure true) (store-Keeps 4 a v)
                        (record { kept = λ t q. q })).kept
                      s p)
                  (λ _.
                    (then-Keeps P (atomic_unlock dev env) (pure false) (unlock-Keeps k D dev env ek)
                        (record { kept = λ t q. q })).kept
                      s p))
              (λ _. p);
      }

  -- No operation of the memory interface touches the registers.
  pub combined-MemoryKeeps : MemoryKeeps P (combined k dev env)
  unfolding combined
  combined-MemoryKeeps = record {
    load_instr = load_instr-Keeps;
    load_word = signed-Keeps 4;
    load_half = signed-Keeps 2;
    load_byte = signed-Keeps 1;
    load_uhalf = unsigned-Keeps 2;
    load_ubyte = unsigned-Keeps 1;
    store_word = store-Keeps 4;
    store_half = store-Keeps 2;
    store_byte = store-Keeps 1;
    atomic_load_word = atomic_load-Keeps;
    atomic_store_word = atomic_store-Keeps;
    atomic_load_reserved_word = reserved-Keeps;
    atomic_store_conditional_word = conditional-Keeps;
  }
