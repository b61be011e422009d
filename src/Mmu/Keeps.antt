-- ===== src/Mmu/Keeps.antt =====
-- The walk of vp/src/core/common/mmu.h changes of the state only what its accesses to the page table
-- change.
use symex_vp.Common.{
  ℕ, zero, suc, ◌+◌, ◌*◌, ◌/◌, ◌%◌, ◌^◌, Bool, ◌==◌, ◌!=◌, leb, if◌then◌else◌, bit_and, bit_or,
  switch_cases, ◌also◌, no_more,
}
use symex_vp.Iss.Hart.{supervisor_mode}
use symex_vp.Iss.Action.{Action, pure, abort, ◌>>◌}
use symex_vp.Iss.Keeps.{Keeps, bind-Keeps, then-Keeps, if-Keeps}
use symex_vp.Mmu.Walk.{
  MemoryAccessType, fetch, load, store, Control, MmuMemory, VmInfo, Verdict, break, descend, maps,
  page_fault, walk, walk_from, finish, follow, load_pte, inspect, decode_vm_info,
  check_vaddr_extension, pte_ppn_shift, pgshift, u64, physical, ad_flags,
}

-- The walk keeps what the accesses to the page table keep.
module _ (S : Type 0) (P : S → Type 0) (mem : MmuMemory S) (c : Control)
    (l4 : (a : ℕ) → Keeps P (mem.mmu_load_pte32 a)) (l8 : (a : ℕ) → Keeps P (mem.mmu_load_pte64 a))
    (s4 : (a v : ℕ) → Keeps P (mem.mmu_store_pte32 a v)) where
  fault-Keeps : (t : MemoryAccessType) (a : ℕ) → Keeps P (page_fault {S = S} t a)
  fault-Keeps fetch a = record { kept = λ s p. p }
  fault-Keeps load a = record { kept = λ s p. p }
  fault-Keeps store a = record { kept = λ s p. p }

  pte-Keeps : (vm : VmInfo) (a : ℕ) → Keeps P (load_pte mem c vm a)
  unfolding load_pte
  pte-Keeps vm a =
      if-Keeps P (vm.ptesize == 4) (mem.mmu_load_pte32 a) (mem.mmu_load_pte64 a) (l4 a) (l8 a)

  finish-Keeps : (t : MemoryAccessType) (v n a pte : ℕ) → Keeps P (finish mem c t v n a pte)
  unfolding finish
  finish-Keeps t v n a pte =
      let paddr : ℕ = physical n (pte / 2 ^ pte_ppn_shift) v in
      let marked : Action S ℕ =
        mem.mmu_store_pte32 a (bit_or pte (ad_flags t) % 2 ^ 32) >> pure paddr in
      if-Keeps P (bit_and pte (ad_flags t) != ad_flags t)
        (if c.page_fault_on_ad then page_fault t v else marked) (pure paddr)
        (if-Keeps P c.page_fault_on_ad (page_fault t v) marked (fault-Keeps t v) (
          then-Keeps P (mem.mmu_store_pte32 a (bit_or pte (ad_flags t) % 2 ^ 32)) (pure paddr)
            (s4 a _) (record { kept = λ s p. p })))
        (record { kept = λ s p. p })

  follow-Keeps :
      (t : MemoryAccessType) (v : ℕ) (next_round : ℕ → Action S ℕ) (found : Action S ℕ)
      (d : Verdict)
      → ((b : ℕ) → Keeps P (next_round b))
      → Keeps P found
      → Keeps P (follow t v next_round found d)
  unfolding follow
  follow-Keeps t v next_round found break h g = fault-Keeps t v
  follow-Keeps t v next_round found (descend b) h g = h b
  follow-Keeps t v next_round found maps h g = g

  levels-Keep :
      (vm : VmInfo) (t : MemoryAccessType) (s_mode : Bool) (v i base : ℕ)
      → Keeps P (walk_from mem c vm t s_mode v i base)
  unfolding walk_from
  levels-Keep vm t s_mode v zero base = fault-Keeps t v
  levels-Keep vm t s_mode v (suc i) base =
      let addr : ℕ =
        u64 (base + v / 2 ^ (pgshift + i * vm.idxbits) % 2 ^ vm.idxbits * vm.ptesize) in
      let round : ℕ → Action S ℕ = λ pte.
        follow t v (walk_from mem c vm t s_mode v i) (finish mem c t v (i * vm.idxbits) addr pte)
          (inspect c t s_mode (i * vm.idxbits) pte) in
      bind-Keeps P (load_pte mem c vm addr) round (pte-Keeps vm addr) (λ pte.
        follow-Keeps t v (walk_from mem c vm t s_mode v i)
          (finish mem c t v (i * vm.idxbits) addr pte) (inspect c t s_mode (i * vm.idxbits) pte)
          (λ b. levels-Keep vm t s_mode v i b) (finish-Keeps t v (i * vm.idxbits) addr pte))

  decoded-Keeps : (prv : ℕ) → Keeps P (decode_vm_info {S = S} c prv)
  unfolding decode_vm_info
  decoded-Keeps prv =
      if-Keeps P (leb prv supervisor_mode) _ abort
        (switch_cases (Keeps P {A = VmInfo}) c.satp_mode _ _
          ((λ _. record { kept = λ s p. p })
            also (λ _. record { kept = λ s p. p })
            also (λ _. record { kept = λ s p. p })
            also (λ _. record { kept = λ s p. p })
            also (λ _. record { kept = λ s p. p })
            also no_more)
          (record { kept = λ s p. p }))
        (record { kept = λ s p. p })

  pub walk-Keeps :
      (xlen v : ℕ) (t : MemoryAccessType) (mode : ℕ) → Keeps P (walk mem c xlen v t mode)
  unfolding walk
  walk-Keeps xlen v t mode =
      bind-Keeps P (decode_vm_info c mode)
        (λ vm.
          walk_from mem c vm t (mode == supervisor_mode) v
            (if check_vaddr_extension xlen v vm then vm.levels else 0) vm.ptbase)
        (decoded-Keeps mode)
        (λ vm.
          levels-Keep vm t (mode == supervisor_mode) v
            (if check_vaddr_extension xlen v vm then vm.levels else 0) vm.ptbase)
