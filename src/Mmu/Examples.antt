-- ===== src/Mmu/Examples.antt =====
-- The walk at a concrete page table.
use symex_vp.Common.{ℕ, ◌%◌, ◌^◌, ◌≡◌, refl, true, false, ◌==◌, if◌then◌else◌, arith}
use symex_vp.Iss.Hart.{returned, supervisor_mode}
use symex_vp.Mmu.Walk.{store, Control, MmuMemory, walk}
use symex_vp.Mmu.Architecture.{sv32, outcome}
use symex_vp.Mmu.Translation.{walk-sv32}

-- A table at 0x1000 that leads to one at 0x2000, where the page 3 is mapped to itself.
abbrev tables : ℕ → ℕ
tables a = if a == 0x1000 then 0x801 else (if a == 0x200c then 0xc4f else 0)

abbrev memory : MmuMemory (ℕ → ℕ)
memory = record {
  mmu_load_pte32 = λ a m. (returned (m a % 2 ^ 32), m);
  mmu_load_pte64 = λ a m. (returned (m a), m);
  mmu_store_pte32 = λ a v m. (returned tt, λ b. if b == a then v else m b);
}

abbrev control : Control
control = record { satp_mode = 1; satp_ppn = 1; sum = false; mxr = false; page_fault_on_ad = false }

walk-sv32_example :
    walk memory control 32 0x3004 store supervisor_mode tables
    ≡ outcome memory control store 0x3004
        (sv32 (λ a. tables a % 2 ^ 32) 1 control store true 0x3004)
        tables
walk-sv32_example =
    walk-sv32 memory control store supervisor_mode 0x3004 tables (λ a. tables a % 2 ^ 32) refl
      (omega arith) (omega arith) (omega arith) (λ a. omega arith) (λ a. refl)
