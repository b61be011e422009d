-- ===== src/Mmu/Walk.antt =====
-- The page table walk of `GenericMMU` in vp/src/core/common/mmu.h. The accesses to the page table,
-- `mmu_memory_if` of vp/src/core/common/mmu_mem_if.h, are a record of actions on a state.
use symex_vp.Common.{
  ℕ, zero, suc, ◌+◌, ◌-◌, ◌*◌, ◌/◌, ◌%◌, ◌^◌, Bool, true, false, ◌&&◌, ◌||◌, not, ◌==◌, ◌!=◌, leb,
  if◌then◌else◌, bit, bit_and, bit_or, switch, [], ◌∷◌,
}
use symex_vp.Iss.Hart.{supervisor_mode}
use symex_vp.Iss.Action.{Action, pure, raise_trap, abort, ◌>>=◌, ◌>>◌}

pub data MemoryAccessType : Type 0 where
  fetch load store : MemoryAccessType

abbrev pub is_fetch : MemoryAccessType → Bool
is_fetch fetch = true
is_fetch load = false
is_fetch store = false

abbrev pub is_load : MemoryAccessType → Bool
is_load fetch = false
is_load load = true
is_load store = false

abbrev pub is_store : MemoryAccessType → Bool
is_store fetch = false
is_store load = false
is_store store = true

abbrev pub pte_ppn_shift : ℕ
pte_ppn_shift = 10

abbrev pub pgshift : ℕ
pgshift = 12

abbrev pub pgsize : ℕ
pgsize = 4096

abbrev pub pte_a : ℕ
pte_a = 0x40

abbrev pub pte_d : ℕ
pte_d = 0x80

-- The members of `pte_t`.
abbrev pub v_flag : ℕ → Bool
v_flag pte = bit pte 0

abbrev pub r_flag : ℕ → Bool
r_flag pte = bit pte 1

abbrev pub w_flag : ℕ → Bool
w_flag pte = bit pte 2

abbrev pub x_flag : ℕ → Bool
x_flag pte = bit pte 3

abbrev pub u_flag : ℕ → Bool
u_flag pte = bit pte 4

pub record VmInfo : Type 0 where
  pub levels : ℕ
  pub idxbits : ℕ
  pub ptesize : ℕ
  pub ptbase : ℕ

pub record MmuMemory (S : Type 0) : Type 0 where
  pub mmu_load_pte32 : ℕ → Action S ℕ
  pub mmu_load_pte64 : ℕ → Action S ℕ
  pub mmu_store_pte32 : ℕ → ℕ → Action S (Unit {0})

-- What the walk reads of the hart: `satp`, `mstatus.sum` and `mstatus.mxr`.
pub record Control : Type 0 where
  pub satp_mode : ℕ
  pub satp_ppn : ℕ
  pub sum : Bool
  pub mxr : Bool
  pub page_fault_on_ad : Bool

abbrev pub u64 : ℕ → ℕ
u64 n = n % 2 ^ 64

unfoldable pub decode_vm_info : {S : Type 0} → Control → ℕ → Action S VmInfo
decode_vm_info c prv =
    let base = u64 (c.satp_ppn * 2 ^ pgshift) in
    if leb prv supervisor_mode
    then switch c.satp_mode
        ((1, pure (record { levels = 2; idxbits = 10; ptesize = 4; ptbase = base }))
          ∷ (8, pure (record { levels = 3; idxbits = 9; ptesize = 8; ptbase = base }))
          ∷ (9, pure (record { levels = 4; idxbits = 9; ptesize = 8; ptbase = base }))
          ∷ (10, pure (record { levels = 5; idxbits = 9; ptesize = 8; ptbase = base }))
          ∷ (11, pure (record { levels = 6; idxbits = 9; ptesize = 8; ptbase = base }))
          ∷ [])
        abort
    else abort

-- With `xlen` bits in a register, as the core has.
unfoldable pub check_vaddr_extension : ℕ → ℕ → VmInfo → Bool
check_vaddr_extension xlen vaddr vm =
    let highbit = vm.idxbits * vm.levels + pgshift - 1 in
    let ext_mask = 2 ^ (xlen - highbit) - 1 in
    let bits = bit_and (vaddr / 2 ^ highbit) ext_mask in (bits == 0) || (bits == ext_mask)

-- How the loop goes on after an entry: it breaks, it descends, or the entry maps the page.
pub data Verdict : Type 0 where
  break : Verdict
  descend : ℕ → Verdict
  maps : Verdict

unfoldable pub inspect : Control → MemoryAccessType → Bool → ℕ → ℕ → Verdict
inspect c type s_mode ptshift pte =
    let ppn = pte / 2 ^ pte_ppn_shift in
    if not (v_flag pte) || (not (r_flag pte) && w_flag pte)
    then break
    else if not (r_flag pte) && not (x_flag pte)
    then descend (u64 (ppn * 2 ^ pgshift))
    else if is_fetch type && not (x_flag pte)
    then break
    else if is_load type && (not (r_flag pte) && not (c.mxr && x_flag pte))
    then break
    else if is_store type && not (r_flag pte && w_flag pte)
    then break
    else if u_flag pte && (s_mode && (is_fetch type || not c.sum))
    then break
    else if not (u_flag pte) && not s_mode
    then break
    else if ppn % 2 ^ ptshift != 0
    then break
    else maps

-- `PTE_A | ((type == STORE) * PTE_D)`
abbrev pub ad_flags : MemoryAccessType → ℕ
ad_flags type = if is_store type then bit_or pte_a pte_d else pte_a

-- `x & (2 ^ k - 1)` and `x & ~(2 ^ k - 1)` are written as remainder and multiple.
unfoldable pub physical : ℕ → ℕ → ℕ → ℕ
physical ptshift ppn vaddr =
    let vpn = vaddr / 2 ^ pgshift in
    let frame = bit_or (ppn / 2 ^ ptshift * 2 ^ ptshift) (vpn % 2 ^ ptshift) in
    bit_or (u64 (frame * 2 ^ pgshift)) (vaddr % pgsize)

abbrev pub exc_instr_page_fault : ℕ
exc_instr_page_fault = 12

abbrev pub exc_load_page_fault : ℕ
exc_load_page_fault = 13

abbrev pub exc_store_amo_page_fault : ℕ
exc_store_amo_page_fault = 15

abbrev pub page_fault : {S : Type 0} → MemoryAccessType → ℕ → Action S ℕ
page_fault fetch vaddr = raise_trap exc_instr_page_fault vaddr
page_fault load vaddr = raise_trap exc_load_page_fault vaddr
page_fault store vaddr = raise_trap exc_store_amo_page_fault vaddr

-- The end of a round: the fault after a `break`, the next round, or the result.
unfoldable pub follow :
    {S : Type 0} → MemoryAccessType → ℕ → (ℕ → Action S ℕ) → Action S ℕ → Verdict → Action S ℕ
follow type vaddr next_round found break = page_fault type vaddr
follow type vaddr next_round found (descend base) = next_round base
follow type vaddr next_round found maps = found

module _ {S : Type 0} (mem : MmuMemory S) (c : Control) where
  unfoldable pub load_pte : VmInfo → ℕ → Action S ℕ
  load_pte vm addr = if vm.ptesize == 4 then mem.mmu_load_pte32 addr else mem.mmu_load_pte64 addr

  -- The update of the flags A and D in the entry that maps the page, and the address.
  unfoldable pub finish : MemoryAccessType → ℕ → ℕ → ℕ → ℕ → Action S ℕ
  unfolding physical
  finish type vaddr ptshift pte_paddr pte =
      let ad = ad_flags type in
      let paddr = physical ptshift (pte / 2 ^ pte_ppn_shift) vaddr in
      if bit_and pte ad != ad
      then (if c.page_fault_on_ad
          then page_fault type vaddr
          else (mem.mmu_store_pte32 pte_paddr (bit_or pte ad % 2 ^ 32) >> pure paddr))
      else pure paddr

  -- The loop over the levels `i - 1`, …, 0.
  unfoldable pub walk_from : VmInfo → MemoryAccessType → Bool → ℕ → ℕ → ℕ → Action S ℕ
  unfolding load_pte inspect finish follow
  walk_from vm type s_mode vaddr zero base = page_fault type vaddr
  walk_from vm type s_mode vaddr (suc i) base =
      let ptshift = i * vm.idxbits in
      let vpn_field = vaddr / 2 ^ (pgshift + ptshift) % 2 ^ vm.idxbits in
      let pte_paddr = u64 (base + vpn_field * vm.ptesize) in
      load_pte vm pte_paddr >>= λ pte.
      follow type vaddr (walk_from vm type s_mode vaddr i) (finish type vaddr ptshift pte_paddr pte)
        (inspect c type s_mode ptshift pte)

  unfoldable pub walk : ℕ → ℕ → MemoryAccessType → ℕ → Action S ℕ
  unfolding decode_vm_info check_vaddr_extension walk_from
  walk xlen vaddr type mode = decode_vm_info c mode >>= λ vm.
      let levels = if check_vaddr_extension xlen vaddr vm then vm.levels else 0 in
      walk_from vm type (mode == supervisor_mode) vaddr levels vm.ptbase
