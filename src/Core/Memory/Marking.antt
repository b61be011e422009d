-- ===== src/Core/Memory/Marking.antt =====
-- An atomic operation of vp/src/core/rv32/iss.h on a page whose entry vp/src/core/common/mmu.h has to
-- mark: the store to the page table gives up the bus lock of the operation.
use symex_vp.Common.{
  ℕ, ◌/◌, ◌%◌, ◌^◌, ◌<◌, ◌≤◌, ◌≡◌, ◌≢◌, ◌∙◌, ap, refl, Bool, true, false, not, ◌==◌, ◌&&◌, leb,
  if◌then◌else◌, if_cases, replicate, none, some, arith, ==→eq,
}
use symex_vp.Bus.Lock.{is_locked_by}
use symex_vp.Iss.Hart.{Result, returned, raised, aborted, supervisor_mode, machine_mode}
use symex_vp.Iss.Action.{Action, pure, modify, raise_trap, raise_if, ◌>>=◌, ◌>>◌, >>=-returned}
use symex_vp.Mmu.Walk.{store, walk, pgshift, exc_load_page_fault, exc_store_amo_page_fault}
use symex_vp.Mmu.Architecture.{sv32, outcome, Translation, is_marked, marks}
use symex_vp.Mmu.Translation.{walk-sv32}
use symex_vp.Core.Clover.{Clover}
use symex_vp.Core.State.{State}
use symex_vp.Core.Interface.{Environment}
use symex_vp.Core.Operands.{reg1, reg2, write_rd, trap_check_addr_alignment}
use symex_vp.Core.Execute.Atomic.{execute_amo, as_amo_fault}
use symex_vp.Core.Memory.Transaction.{
  Devices, Payload, Reply, hart_id, wait_for_access_rights, lock_bus, transact, concrete_load_data,
  concrete_store_data,
}
use symex_vp.Core.Memory.Translate.{
  translate_virtual_to_physical_addr, access_mode, control, satp_mode, satp_ppn, insert, kept_page,
}
use symex_vp.Core.Memory.Access.{
  page_table, v2p, symbolic_load_data, load_signed, received, atomic_load_word, atomic_store_word,
  combined,
}
use symex_vp.Core.Memory.Exclusive.{
  Ensures, Fails, bind-Fails, bind-Ensures, holds_bus, IsFree, concrete_store-IsFree,
}

module _ (k : Clover) (D : Type 0) (dev : Devices k.Value D)
    (env : Environment (State k.Value D)) where
  -- A state whose page tables map an address for a store by an entry that is not marked as dirty yet,
  -- which the hardware has to do; the page tables are memory that can be read as it is.
  pub record Unmarked (vaddr : ℕ) (s : State k.Value D) : Type 0 where
    pub has_mmu : s.has_mmu ≡ true
    pub paged : satp_mode s.hart ≡ 1
    pub mode : access_mode store s ≤ 1
    pub address : vaddr < 2 ^ 32
    pub miss : (s.tlb (access_mode store s) store (vaddr / 2 ^ 12 % 256)).vpn ≢ vaddr / 2 ^ 12
    pub read : ℕ → ℕ
    pub words : (a : ℕ) → read a < 2 ^ 32
    pub reads : (a : ℕ) → concrete_load_data dev env 4 a s ≡ (returned (read a), s)
    pub entry : Translation
    pub maps :
        sv32 read (satp_ppn s.hart) (control s) store (access_mode store s == supervisor_mode) vaddr
        ≡ some entry
    pub unmarked : is_marked store entry.pte ≡ false
    pub by_hardware : s.page_fault_on_ad ≡ false

  abbrev Q : State k.Value D → Type 0
  Q = IsFree k D dev env

  marked :
      (v : ℕ) (s : State k.Value D) (t : Translation)
      → is_marked store t.pte ≡ false
      → s.page_fault_on_ad ≡ false
      → Ensures Q (outcome (page_table k dev env) (control s) store v (some t) s)
  unfolding outcome
  marked v s t h g =
      let Good : Action (State k.Value D) ℕ → Type 0 = λ m. Ensures Q (m s) in
      if_cases Good (is_marked store t.pte) _ _ (λ e. absurd (cc (e, h)))
        (λ _.
          if_cases Good s.page_fault_on_ad _ _ (λ e. absurd (cc (e, g)))
            (λ _.
              bind-Ensures (State k.Value D) Q (Unit {0}) ℕ
                (concrete_store_data dev env 4 t.pte_address (marks store t.pte))
                (λ _. pure t.address) s
                (concrete_store-IsFree k D dev env 4 t.pte_address (marks store t.pte) s)
                (λ _ w q. q)))

  walk-IsFree :
      (v : ℕ) (s : State k.Value D)
      → Unmarked v s
      → Ensures Q (walk (page_table k dev env) (control s) 32 v store (access_mode store s) s)
  walk-IsFree v s u =
      let e : walk (page_table k dev env) (control s) 32 v store (access_mode store s) s
          ≡ outcome (page_table k dev env) (control s) store v (some u.entry) s =
        walk-sv32 (page_table k dev env) (control s) store (access_mode store s) v s u.read u.paged
          (omega arith) u.mode u.address u.words u.reads
        ∙ ap (λ o. outcome (page_table k dev env) (control s) store v o s) u.maps in
      rw e (marked v s u.entry u.unmarked u.by_hardware)

  -- What the translation does once the entry is marked.
  abbrev filled : ℕ → ℕ → ℕ → Action (State k.Value D) ℕ
  filled mode vpn paddr =
      modify (λ t. record t {
        tlb = insert mode store (vpn % 256) (record { ppn = kept_page paddr; vpn = vpn }) t.tlb;
      })
      >> pure paddr

  translate-IsFree :
      (v : ℕ) (s : State k.Value D)
      → Unmarked v s
      → Ensures Q (translate_virtual_to_physical_addr (page_table k dev env) v store s)
  unfolding translate_virtual_to_physical_addr
  translate-IsFree v s u =
      let Good : Result ℕ × State k.Value D → Type 0 = Ensures Q in
      if_cases Good (satp_mode s.hart == 0) _ _
        (λ e. absurd (omega (arith, u.paged, ==→eq (satp_mode s.hart) 0 e)))
        (λ _.
          if_cases Good (access_mode store s == machine_mode) _ _
            (λ e. absurd (omega (arith, u.mode, ==→eq (access_mode store s) 3 e)))
            (λ _.
              if_cases Good (not (leb (access_mode store s) 1)) _ _
                (λ e. absurd (ground (arith, u.mode)))
                (λ _.
                  if_cases Good
                    ((s.tlb (access_mode store s) store (v / 2 ^ pgshift % 256)).vpn
                      == v / 2 ^ pgshift)
                    _ _ (λ e. absurd (u.miss (==→eq _ (v / 2 ^ pgshift) e)))
                    (λ _.
                      bind-Ensures (State k.Value D) Q ℕ ℕ
                        (walk (page_table k dev env) (control s) 32 v store (access_mode store s))
                        (filled (access_mode store s) (v / 2 ^ pgshift)) s (walk-IsFree v s u)
                        (λ paddr t q. q)))))

  v2p-IsFree : (v : ℕ) (s : State k.Value D) → Unmarked v s → Ensures Q (v2p k dev env v store s)
  unfolding v2p
  v2p-IsFree v s u =
      if_cases (Ensures Q) s.has_mmu _ _ (λ _. translate-IsFree v s u)
        (λ e. absurd (cc (e, u.has_mmu)))

  transact-IsFree :
      (trans : Payload k.Value) (s : State k.Value D) → Q s → Ensures Q (transact dev env trans s)
  unfolding transact
  transact-IsFree trans s q = go (dev.b_transport trans s.devices)
    where
      go :
          (o : Reply k.Value × D)
          → Ensures Q (
              if o.0.is_error
              then raise_trap {A = Reply k.Value}
                  (if trans.is_write then exc_store_amo_page_fault else exc_load_page_fault)
                  o.0.address
                  (record s { devices = o.1 })
              else (returned o.0, record s { devices = o.1 }))
      go (reply, d) =
          if_cases (λ (out : Result (Reply k.Value) × State k.Value D). Ensures Q out)
            reply.is_error _ _ (λ _. tt) (λ _. q)

  -- The hart that holds the bus does not wait for it.
  wait_lem :
      (s : State k.Value D) → holds_bus k D dev env s ≡ true → wait_for_access_rights dev env s ≡ s
  unfolding wait_for_access_rights
  wait_lem s h =
      if_cases (λ t. t ≡ s)
        (s.hart.bus_lock.locked && not (is_locked_by (hart_id dev env s) s.hart.bus_lock)) _ _
        (λ e. absurd (ground (arith, h))) (λ _. refl)

  load-IsFree :
      (a : k.Value) (s : State k.Value D)
      → holds_bus k D dev env s ≡ true
      → Unmarked (k.concrete a) s
      → Ensures Q (load_signed k dev env 4 a s)
  unfolding load_signed symbolic_load_data
  load-IsFree a s h u =
      let trans : ℕ → Payload k.Value = λ paddr. record {
        is_write = false;
        address = paddr;
        bytes = replicate 4 0;
        extension = none;
      } in
      let read : ℕ → Action (State k.Value D) k.Value =
        λ paddr. transact dev env (trans paddr) >>= λ reply. pure (received k dev env reply) in
      let m : Action (State k.Value D) k.Value = v2p k dev env (k.concrete a) store >>= read in
      let whole : Ensures Q (m s) =
        bind-Ensures (State k.Value D) Q ℕ k.Value (v2p k dev env (k.concrete a) store) read s
          (v2p-IsFree (k.concrete a) s u)
          (λ paddr t q.
            bind-Ensures (State k.Value D) Q (Reply k.Value) k.Value
              (transact dev env (trans paddr)) (λ reply. pure (received k dev env reply)) t
              (transact-IsFree (trans paddr) t q) (λ reply w r. r)) in
      bind-Ensures (State k.Value D) Q k.Value k.Value (λ t. m (wait_for_access_rights dev env t))
        (λ v. pure (k.sext 32 v)) s (rw (wait_lem s h) whole) (λ v t q. q)

  load_word-IsFree :
      (a : k.Value) (s t : State k.Value D)
      → lock_bus dev env s ≡ (returned tt, t)
      → holds_bus k D dev env t ≡ true
      → Unmarked (k.concrete a) t
      → Ensures Q (atomic_load_word k dev env a s)
  unfolding atomic_load_word
  load_word-IsFree a s t e h u =
      rw (>>=-returned (lock_bus dev env) (λ _. load_signed k dev env 4 a) s t tt e)
        (load-IsFree a t h u)

  store_word-Fails :
      (a v : k.Value) (s : State k.Value D) → Q s → Fails (atomic_store_word k dev env a v s)
  unfolding atomic_store_word
  store_word-Fails a v s free = rw free tt

  amo_fault-IsFree :
      (o : Result k.Value × State k.Value D)
      → Ensures Q o
      → Ensures {A = k.Value} Q (as_amo_fault o.0, o.1)
  unfolding as_amo_fault
  amo_fault-IsFree (returned v, s) q = q
  amo_fault-IsFree (raised t, s) q = tt
  amo_fault-IsFree (aborted, s) q = tt

  then-Fails :
      (m n : Action (State k.Value D) (Unit {0})) (s : State k.Value D)
      → Fails (m s)
      → Fails ((m >> n) s)
  then-Fails m n s h = go (m s) h
    where
      go :
          (o : Result (Unit {0}) × State k.Value D)
          → Fails o
          → Fails (((λ (_ : State k.Value D). o) >> n) s)
      go (returned u, t) h = elim h [ ]
      go (raised e, t) h = tt
      go (aborted, t) h = tt

  raise-Fails :
      (c : Bool) (reason mtval : ℕ) (m : Action (State k.Value D) (Unit {0})) (s : State k.Value D)
      → Fails (m s)
      → Fails ((raise_if c reason mtval >> m) s)
  raise-Fails c reason mtval m s h =
      if_cases (λ (n : Action (State k.Value D) (Unit {0})). Fails ((n >> m) s)) c _ _ (λ _. tt)
        (λ _. h)

  -- An atomic memory operation whose hart gets the bus, on a page whose entry the hardware then
  -- has to mark as accessed or dirty and which the translation buffer does not have, does not
  -- return: marking the entry gives up the bus lock, and the store asserts that the hart has it.
  pub execute_amo-Fails :
      (f : k.Value → k.Value → k.Value) (s t : State k.Value D)
      → lock_bus dev env s ≡ (returned tt, t)
      → holds_bus k D dev env t ≡ true
      → Unmarked (k.concrete (reg1 k s)) t
      → Fails (execute_amo k (combined k dev env) f s)
  unfolding execute_amo combined trap_check_addr_alignment
  execute_amo-Fails f s t e h u =
      let addr : k.Value = reg1 k s in
      let Word : Type 0 = Action (State k.Value D) k.Value in
      let load : Word =
        λ u. (let (r, u') = atomic_load_word k dev env addr u in (as_amo_fault r, u')) in
      let rest : k.Value → Action (State k.Value D) (Unit {0}) =
        λ v u. (atomic_store_word k dev env addr (f v (reg2 k u)) >> write_rd k v) u in
      let amo : Fails ((load >>= rest) s) =
        bind-Fails (State k.Value D) Q k.Value (Unit {0}) load rest s
          (amo_fault-IsFree (atomic_load_word k dev env addr s) (load_word-IsFree addr s t e h u))
          (λ v u q.
            then-Fails (atomic_store_word k dev env addr (f v (reg2 k u))) (write_rd k v) u
              (store_word-Fails addr (f v (reg2 k u)) u q)) in
      raise-Fails _ _ _ (load >>= rest) s amo
