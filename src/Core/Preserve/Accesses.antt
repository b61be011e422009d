-- ===== src/Core/Preserve/Accesses.antt =====
-- The loads, stores and atomic instructions of vp/src/core/rv32/iss.cpp keep the register file.
use symex_vp.Common.{ℕ, true, false, ◌==◌, if◌then◌else◌}
use symex_vp.Instr.Mapping.{
  Mapping, sb, sh, sw, lb, lh, lw, lbu, lhu, lr_w, sc_w, amoswap_w, amoadd_w, amoxor_w, amoand_w,
  amoor_w, amomin_w, amominu_w, amomax_w, amomaxu_w,
}
use symex_vp.Iss.Hart.{Hart}
use symex_vp.Iss.Action.{Action, modify, ◌>>=◌, ◌>>◌}
use symex_vp.Iss.Keeps.{Keeps, bind-Keeps, then-Keeps, modify-Keeps, look-Keeps, AllKeep}
use symex_vp.Core.Clover.{Clover}
use symex_vp.Core.State.{State, on_hart}
use symex_vp.Core.Interface.{Memory}
use symex_vp.Core.Registers.{Widths}
use symex_vp.Core.Operands.{
  reg1, reg2, i_immediate, s_immediate, write_rd, require_isa, a_extension,
  trap_check_addr_alignment,
}
use symex_vp.Core.Execute.Transfer.{store_aligned, load_aligned, execute_transfer}
use symex_vp.Core.Execute.Atomic.{
  execute_amo, load_reserved, store_conditional, execute_atomic, set_counter, as_amo_fault,
}
use symex_vp.Core.Preserve.{
  HasFile, MemoryKeeps, write_rd-Keeps, require_isa-Keeps, addr_alignment-Keeps,
}

module _ (k : Clover) (w : Widths k) (D : Type 0) (mem : Memory (State k.Value D) k.Value)
    (mk : MemoryKeeps (HasFile k {D = D}) mem) where
  abbrev P : State k.Value D → Type 0
  P = HasFile k

  abbrev Kept : {A : Type 0} → Action (State k.Value D) A → Type 0
  Kept m = Keeps P m

  stored-Keeps :
      (n : ℕ) (put : k.Value → k.Value → Action (State k.Value D) (Unit {0}))
      → ((a v : k.Value) → Kept (put a v))
      → Kept (store_aligned k mem n put)
  unfolding store_aligned
  stored-Keeps n put h =
      look-Keeps P
        (λ s. trap_check_addr_alignment k n false (k.add (reg1 k s) (s_immediate k s)) >> λ t.
          put (k.add (reg1 k s) (s_immediate k s)) (reg2 k t) t)
        (λ s.
          then-Keeps P (trap_check_addr_alignment k n false (k.add (reg1 k s) (s_immediate k s)))
            (λ t. put (k.add (reg1 k s) (s_immediate k s)) (reg2 k t) t)
            (addr_alignment-Keeps k w D n false (k.add (reg1 k s) (s_immediate k s)))
            (look-Keeps P (λ t. put (k.add (reg1 k s) (s_immediate k s)) (reg2 k t))
              (λ t. h (k.add (reg1 k s) (s_immediate k s)) (reg2 k t))))

  read-Keeps : (m : Action (State k.Value D) k.Value) → Kept m → Kept (m >>= write_rd k)
  read-Keeps m h = bind-Keeps P m (write_rd k) h (write_rd-Keeps k w D)

  loaded-Keeps :
      (n : ℕ) (get : k.Value → Action (State k.Value D) k.Value)
      → ((a : k.Value) → Kept (get a))
      → Kept (load_aligned k mem n get)
  unfolding load_aligned
  loaded-Keeps n get h =
      look-Keeps P
        (λ s.
          trap_check_addr_alignment k n true (k.add (reg1 k s) (i_immediate k s))
          >> (get (k.add (reg1 k s) (i_immediate k s)) >>= write_rd k))
        (λ s.
          then-Keeps P (trap_check_addr_alignment k n true (k.add (reg1 k s) (i_immediate k s)))
            (get (k.add (reg1 k s) (i_immediate k s)) >>= write_rd k)
            (addr_alignment-Keeps k w D n true (k.add (reg1 k s) (i_immediate k s)))
            (read-Keeps (get (k.add (reg1 k s) (i_immediate k s)))
              (h (k.add (reg1 k s) (i_immediate k s)))))

  pub transfers-Keep : (op : Mapping) → AllKeep P (execute_transfer k mem op)
  unfolding execute_transfer
  transfers-Keep sb =
      look-Keeps P (λ s. mem.store_byte (k.add (reg1 k s) (s_immediate k s)) (reg2 k s))
        (λ s. mk.store_byte (k.add (reg1 k s) (s_immediate k s)) (reg2 k s))
  transfers-Keep sh = stored-Keeps 2 mem.store_half mk.store_half
  transfers-Keep sw = stored-Keeps 4 mem.store_word mk.store_word
  transfers-Keep lb =
      look-Keeps P (λ s. mem.load_byte (k.add (reg1 k s) (i_immediate k s)) >>= write_rd k)
        (λ s.
          read-Keeps (mem.load_byte (k.add (reg1 k s) (i_immediate k s)))
            (mk.load_byte (k.add (reg1 k s) (i_immediate k s))))
  transfers-Keep lh = loaded-Keeps 2 mem.load_half mk.load_half
  transfers-Keep lw = loaded-Keeps 4 mem.load_word mk.load_word
  transfers-Keep lbu =
      look-Keeps P (λ s. mem.load_ubyte (k.add (reg1 k s) (i_immediate k s)) >>= write_rd k)
        (λ s.
          read-Keeps (mem.load_ubyte (k.add (reg1 k s) (i_immediate k s)))
            (mk.load_ubyte (k.add (reg1 k s) (i_immediate k s))))
  transfers-Keep lhu = loaded-Keeps 2 mem.load_uhalf mk.load_uhalf
  transfers-Keep op = tt

  abbrev amo_load : k.Value → Action (State k.Value D) k.Value
  amo_load addr t = (as_amo_fault (mem.atomic_load_word addr t).0, (mem.atomic_load_word addr t).1)

  abbrev amo_store :
      (k.Value → k.Value → k.Value)
      → k.Value
      → k.Value
      → State k.Value D
      → Action (State k.Value D) (Unit {0})
  amo_store operation addr value t =
      mem.atomic_store_word addr (operation value (reg2 k t)) >> write_rd k value

  amo-Keeps : (f : k.Value → k.Value → k.Value) → Kept (execute_amo k mem f)
  unfolding execute_amo
  amo-Keeps f =
      look-Keeps P
        (λ s.
          trap_check_addr_alignment k 4 false (reg1 k s)
          >> (amo_load (reg1 k s) >>= λ value. λ t. amo_store f (reg1 k s) value t t))
        (λ s.
          then-Keeps P (trap_check_addr_alignment k 4 false (reg1 k s))
            (amo_load (reg1 k s) >>= λ value. λ t. amo_store f (reg1 k s) value t t)
            (addr_alignment-Keeps k w D 4 false (reg1 k s))
            (bind-Keeps P (amo_load (reg1 k s)) (λ value. λ t. amo_store f (reg1 k s) value t t)
              (record { kept = λ t p. (mk.atomic_load_word (reg1 k s)).kept t p })
              (λ value. look-Keeps P (amo_store f (reg1 k s) value) (λ t.
                then-Keeps P (mem.atomic_store_word (reg1 k s) (f value (reg2 k t)))
                  (write_rd k value) (mk.atomic_store_word (reg1 k s) (f value (reg2 k t)))
                  (write_rd-Keeps k w D value)))))

  counter-Keeps : (f : Hart → Hart) → Kept (modify (on_hart f))
  counter-Keeps f = modify-Keeps P (on_hart f) (λ s p. p)

  reserved-Keeps : Kept (load_reserved k mem)
  unfolding load_reserved
  reserved-Keeps =
      let count : Action (State k.Value D) (Unit {0}) =
        modify (on_hart (λ h. if h.lr_sc_counter == 0 then set_counter 17 h else h)) in
      look-Keeps P
        (λ s.
          trap_check_addr_alignment k 4 true (reg1 k s)
          >> ((mem.atomic_load_reserved_word (reg1 k s) >>= write_rd k) >> count))
        (λ s.
          then-Keeps P (trap_check_addr_alignment k 4 true (reg1 k s))
            ((mem.atomic_load_reserved_word (reg1 k s) >>= write_rd k) >> count)
            (addr_alignment-Keeps k w D 4 true (reg1 k s))
            (then-Keeps P (mem.atomic_load_reserved_word (reg1 k s) >>= write_rd k) count
              (read-Keeps (mem.atomic_load_reserved_word (reg1 k s))
                (mk.atomic_load_reserved_word (reg1 k s)))
              (counter-Keeps (λ h. if h.lr_sc_counter == 0 then set_counter 17 h else h))))

  -- The part of SC after the destination holds the failure.
  abbrev attempt : k.Value → k.Value → Action (State k.Value D) (Unit {0})
  attempt addr val =
      (mem.atomic_store_conditional_word addr val >>= λ stored.
      write_rd k (if stored then k.bvc 0 else k.bvc 1))
      >> modify (on_hart (set_counter 0))

  attempt-Keeps : (a v : k.Value) → Kept (attempt a v)
  attempt-Keeps a v =
      then-Keeps P
        (mem.atomic_store_conditional_word a v >>= λ stored.
          write_rd k (if stored then k.bvc 0 else k.bvc 1))
        (modify (on_hart (set_counter 0)))
        (bind-Keeps P (mem.atomic_store_conditional_word a v)
          (λ stored. write_rd k (if stored then k.bvc 0 else k.bvc 1))
          (mk.atomic_store_conditional_word a v)
          (λ stored. write_rd-Keeps k w D (if stored then k.bvc 0 else k.bvc 1)))
        (counter-Keeps (set_counter 0))

  conditional-Keeps : Kept (store_conditional k mem)
  unfolding store_conditional
  conditional-Keeps =
      look-Keeps P
        (λ s.
          trap_check_addr_alignment k 4 false (reg1 k s)
          >> (write_rd k (k.bvc 1) >> attempt (reg1 k s) (reg2 k s)))
        (λ s.
          then-Keeps P (trap_check_addr_alignment k 4 false (reg1 k s))
            (write_rd k (k.bvc 1) >> attempt (reg1 k s) (reg2 k s))
            (addr_alignment-Keeps k w D 4 false (reg1 k s))
            (then-Keeps P (write_rd k (k.bvc 1)) (attempt (reg1 k s) (reg2 k s))
              (write_rd-Keeps k w D (k.bvc 1)) (attempt-Keeps (reg1 k s) (reg2 k s))))

  required :
      (m : Action (State k.Value D) (Unit {0})) → Kept m → Kept (require_isa k a_extension >> m)
  required m h = then-Keeps P (require_isa k a_extension) m (require_isa-Keeps k w D a_extension) h

  amo_required :
      (f : k.Value → k.Value → k.Value) → Kept (require_isa k a_extension >> execute_amo k mem f)
  amo_required f = required (execute_amo k mem f) (amo-Keeps f)

  pub atomics-Keep : (op : Mapping) → AllKeep P (execute_atomic k mem op)
  unfolding execute_atomic
  atomics-Keep lr_w = required (load_reserved k mem) reserved-Keeps
  atomics-Keep sc_w = required (store_conditional k mem) conditional-Keeps
  atomics-Keep amoswap_w = amo_required (λ a b. b)
  atomics-Keep amoadd_w = amo_required k.add
  atomics-Keep amoxor_w = amo_required k.bxor
  atomics-Keep amoand_w = amo_required k.band
  atomics-Keep amoor_w = amo_required k.bor
  atomics-Keep amomin_w = amo_required (λ a b. k.select (k.sge a b) b a)
  atomics-Keep amominu_w = amo_required (λ a b. k.select (k.uge a b) b a)
  atomics-Keep amomax_w = amo_required (λ a b. k.select (k.sge a b) a b)
  atomics-Keep amomaxu_w = amo_required (λ a b. k.select (k.uge a b) a b)
  atomics-Keep op = tt
