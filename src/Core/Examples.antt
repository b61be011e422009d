-- ===== src/Core/Examples.antt =====
-- The theorems on the hart at concrete states, and tests.
use symex_vp.Common.{
  ℕ, ◌^◌, ◌<◌, ◌≡◌, refl, true, false, ◌==◌, if◌then◌else◌, [], set, none, arith, switch,
}
use symex_vp.Csr.Register.{index, misa, satp}
use symex_vp.Instr.Mapping.{add, bltu, lw, mulhu, undef}
use symex_vp.Bus.Lock.{lock, is_locked_by}
use symex_vp.Iss.Hart.{Hart, returned, raised, supervisor_mode}
use symex_vp.Mmu.Walk.{
  load, walk, decode_vm_info, check_vaddr_extension, walk_from, load_pte, inspect, finish, follow,
  physical,
}
use symex_vp.Mmu.Entry.{invalid_entry}
use symex_vp.Mmu.Architecture.{
  sv32, small_page, large_page, is_valid, is_leaf, is_marked, right, reachable, permits,
}
use symex_vp.Core.State.{State, runnable}
use symex_vp.Core.Interface.{Memory, Environment}
use symex_vp.Core.RegFile
use symex_vp.Core.Registers.{zeros-IsFile, set-IsFile}
use symex_vp.Core.Concrete.{bits, bits_widths, bits_semantics, bits-Is}
use symex_vp.Core.Operands.{reg1, reg2}
use symex_vp.Core.Execute.Atomic.{execute_amo}
use symex_vp.Core.Preserve.Run.{IsReady}
use symex_vp.Core.Step.{execute}
use symex_vp.Core.Memory.Transaction.{
  Devices, to_bytes, of_bytes, lock_bus, set_lock, concrete_load_data, wait_for_access_rights,
  dmi_find, transact,
}
use symex_vp.Core.Memory.Access.{combined, atomic_store_conditional_word, page_table}
use symex_vp.Core.Memory.Exclusive.{StoresOrFails, atomic_store_conditional-StoresOrFails, Fails}
use symex_vp.Core.Memory.Marking.{Unmarked, execute_amo-Fails}
use symex_vp.Core.Refines.{HasOperands}
use symex_vp.Core.Isa.{isa, isa_m}
use symex_vp.Core.Writes.{Holds, execute-isa}
use symex_vp.Core.ExtensionM.{LeavesResult, execute-isa_m}
use symex_vp.Core.Branches.{Follows, taken, execute-taken}
use symex_vp.Core.Debug.{read_register, write_register, read_register-write_register}
use symex_vp.Core.Memory.Translate.{translate_virtual_to_physical_addr}
use symex_vp.Core.Memory.Again.{filled, translate-again}
use symex_vp.Core.Errors.{misaligned, address, plus_i, words, execute-misaligned}
use symex_vp.Instr.Fields

-- A bus with a memory of words behind it.
abbrev Ram : Type 0
Ram = ℕ → ℕ

abbrev devices : Devices (ℕ × ℕ) Ram
devices = record {
  b_transport = λ trans ram.
      if trans.is_write
      then (
        record { is_error = false; address = trans.address; bytes = trans.bytes; extension = none },
        λ a. if a == trans.address then of_bytes trans.bytes else ram a,
      )
      else (
        record {
          is_error = false;
          address = trans.address;
          bytes = to_bytes 4 (ram trans.address);
          extension = none;
        },
        ram,
      );
  dmi_ranges = [];
  dmi_load = λ r a n ram. ram a;
  dmi_store = λ r a n v ram. ram;
}

-- A table at 0x1000 whose first entry leads to one at 0x2000; there, the page 3 is mapped to itself, with the
-- flags D, A, X, W, R, V of 0x4f.
abbrev tables : Ram
tables a = if a == 0x1000 then 0x801 else (if a == 0x200c then 0xc4f else 0)

abbrev alone : Environment (State (ℕ × ℕ) Ram)
alone = record {
  wait_until_unlocked = λ s. s;
  wait_for_event = λ s. s;
  need_sync = λ s. false;
  sync = λ s. s;
  update_and_get_mtime = λ s. 0;
}

-- At `AMOADD.W x3, x2, (x1)`, with 0x3000 in x1 and 5 in x2.
abbrev hart : Hart
hart = record {
  csrs = λ r.
      if index r == index misa
      then 0x40141105
      else (if index r == index satp then 0x80000001 else 0);
  prv = supervisor_mode;
  pc = 0x204;
  last_pc = 0x200;
  instr = 0x20a1af;
  lr_sc_counter = 2;
  bus_lock = record { locked = false; owner = 0 };
  cycle_counter = 0;
  cycle_time = 10;
}

abbrev at : ℕ → State (ℕ × ℕ) Ram
at x1 = record {
  hart = hart;
  regs = set (set (RegFile.zeros bits) 1 (bits.bvc x1)) 2 (bits.bvc 5);
  op = undef;
  status = runnable;
  debug_mode = false;
  breakpoints = [];
  shall_exit = false;
  ignore_wfi = false;
  total_num_instr = 0;
  branches = [];
  lr_addr = none;
  has_mmu = true;
  page_fault_on_ad = false;
  tlb = λ mode type idx. invalid_entry;
  devices = tables;
}

abbrev memory : Memory (State (ℕ × ℕ) Ram) (ℕ × ℕ)
memory = combined bits devices alone

at-IsReady : (x1 : ℕ) → IsReady bits (at x1)
unfolding RegFile.element RegFile.zeros
at-IsReady x1 = record {
  file =
      set-IsFile bits bits_widths 2 (bits.bvc 5) (set (RegFile.zeros bits) 1 (bits.bvc x1))
        (omega arith) refl
        (set-IsFile bits bits_widths 1 (bits.bvc x1) (RegFile.zeros bits) (omega arith) refl
          (zeros-IsFile bits bits_widths));
  zero = refl;
}

atomic_store_conditional-StoresOrFails_example :
    StoresOrFails bits Ram devices alone
      (bits.bvc 0x3000)
      (at 0x3000)
      (atomic_store_conditional_word bits devices alone (bits.bvc 0x3000) (bits.bvc 7) (at 0x3000))
atomic_store_conditional-StoresOrFails_example =
    atomic_store_conditional-StoresOrFails bits Ram devices alone (bits.bvc 0x3000) (bits.bvc 7)
      (at 0x3000)

-- The state with the bus, whose table has the page not marked as dirty.
abbrev locked : State (ℕ × ℕ) Ram
locked = set_lock devices alone (record { locked = true; owner = 0 }) (at 0x3000)

locked-Unmarked : Unmarked bits Ram devices alone (bits.concrete (reg1 bits (at 0x3000))) locked
unfolding RegFile.element RegFile.zeros concrete_load_data wait_for_access_rights dmi_find transact
    is_locked_by sv32 small_page large_page is_valid is_leaf is_marked right reachable permits
    Fields.rs1
locked-Unmarked = record {
  has_mmu = refl;
  paged = refl;
  mode = omega arith;
  address = omega arith;
  miss = λ e. omega (arith, e);
  read = λ a. of_bytes (to_bytes 4 (tables a));
  words = λ a. omega arith;
  reads = λ a. refl;
  entry = record { pte_address = 0x200c; pte = 0xc4f; address = 0x3000 };
  maps = refl;
  unmarked = refl;
  by_hardware = refl;
}

execute_amo-Fails_example : Fails (execute_amo bits memory bits.add (at 0x3000))
unfolding lock_bus wait_for_access_rights lock is_locked_by
execute_amo-Fails_example =
    execute_amo-Fails bits Ram devices alone bits.add (at 0x3000) locked refl refl locked-Unmarked

-- A load through the tables, and a second one of the same page.
translate-again_example :
    (translate_virtual_to_physical_addr (page_table bits devices alone) 0x3004 load (at 0x3000)
      ≡ (returned 0x3004, filled (page_table bits devices alone) load 1 0x3004 0x3004 (at 0x3000)))
    × (translate_virtual_to_physical_addr
          (page_table bits devices alone)
          0x3008
          load
          (filled (page_table bits devices alone) load 1 0x3004 0x3004 (at 0x3000))
        ≡ (
          returned 0x3008,
          filled (page_table bits devices alone) load 1 0x3004 0x3004 (at 0x3000),
        ))
unfolding walk decode_vm_info check_vaddr_extension walk_from load_pte inspect finish follow
    physical switch concrete_load_data wait_for_access_rights dmi_find transact
translate-again_example =
    translate-again (page_table bits devices alone) load 0x3004 0x3008 0x3004 (at 0x3000)
      (at 0x3000) (λ e. omega (arith, e)) (omega arith) (λ e. omega (arith, e)) refl refl refl refl

-- LW at an address two bytes after a word.
execute-misaligned_example : execute bits memory alone lw (at 0x3000) ≡ (
  raised (misaligned true (bits.concrete (address bits Ram memory alone (at 0x3000) plus_i))),
  at 0x3000,
)
unfolding RegFile.element RegFile.zeros Fields.i_imm Fields.rs1
execute-misaligned_example =
    execute-misaligned bits Ram memory alone (at 0x3000) lw 4 true plus_i words tt
      (λ e. omega (arith, e))

-- A hart without M.
abbrev without_m : State (ℕ × ℕ) Ram
without_m = record (at 0) {
  hart = record hart { csrs = λ r. if index r == index misa then 0x40000105 else 0 };
}

at-HasOperands : (x1 : ℕ) → x1 < 2 ^ 32 → HasOperands bits bits_semantics Ram (at x1) x1 5
unfolding RegFile.element RegFile.zeros Fields.rs1 Fields.rs2
at-HasOperands x1 h = record {
  first = bits-Is (reg1 bits (at x1)) 32 x1 refl (omega arith);
  second = bits-Is (reg2 bits (at x1)) 32 5 refl refl;
  word = omega arith;
  address = omega arith;
}

execute-isa_example :
    Holds bits bits_semantics Ram (at 0xffffffff) 4 (execute bits memory alone add (at 0xffffffff))
unfolding isa
execute-isa_example =
    execute-isa bits bits_semantics Ram (at 0xffffffff) memory alone add 0xffffffff 5 4
      (at-HasOperands 0xffffffff (omega arith)) refl

execute-isa_m_example :
    LeavesResult bits bits_semantics Ram memory alone
      (at 0xffffffff)
      (isa_m mulhu 0xffffffff 5)
      (execute bits memory alone mulhu (at 0xffffffff))
execute-isa_m_example =
    execute-isa_m bits bits_semantics Ram memory alone (at 0xffffffff) mulhu 0xffffffff 5
      (at-HasOperands 0xffffffff (omega arith)) (omega arith) (omega arith) refl

execute-taken_example :
    Follows bits bits_semantics Ram memory alone
      (at 3)
      (taken bltu 3 5)
      (execute bits memory alone bltu (at 3))
execute-taken_example =
    execute-taken bits bits_semantics Ram memory alone (at 3) bltu 3 5
      (at-HasOperands 3 (omega arith)) refl refl

read_register-write_register_example :
    (t : State (ℕ × ℕ) Ram) × (write_register bits 5 0xffffffff (at 1) ≡ (returned tt, t))
    × (read_register bits 5 t ≡ (returned 0xffffffff, t))
read_register-write_register_example =
    read_register-write_register bits bits_widths Ram (at 1) (at-IsReady 1).file 5 5 0xffffffff
      (omega arith) (omega arith) (omega arith)
