-- ===== src/Mmu/Translation.antt =====
-- The whole walk of vp/src/core/common/mmu.h on RV32, against the architecture's description.
use symex_vp.Common.{
  ℕ, ◌*◌, ◌/◌, ◌^◌, ◌≤◌, ◌<◌, ◌≡◌, refl, ◌∙◌, ap, Bool, true, ◌==◌, if◌then◌else◌, leb, arith,
  and_mask, switch,
}
use symex_vp.Iss.Hart.{returned, supervisor_mode}
use symex_vp.Iss.Action.{>>=-returned}
use symex_vp.Mmu.Walk.{
  MemoryAccessType, Control, MmuMemory, walk, walk_from, decode_vm_info, check_vaddr_extension,
  VmInfo, u64,
}
use symex_vp.Mmu.Architecture.{sv32, outcome}
use symex_vp.Mmu.Sv32.{sv32_info, levels_lem}

-- With the 32 bits of a register, the extension covers the top bit alone, and is always right.
extension_lem : (vaddr base : ℕ) → check_vaddr_extension 32 vaddr (sv32_info base) ≡ true
unfolding check_vaddr_extension
extension_lem vaddr base = ground (arith, and_mask 1 (vaddr / 2 ^ 31))

decode_lem :
    {S : Type 0} (c : Control) (mode : ℕ) (s : S)
    → c.satp_mode ≡ 1
    → c.satp_ppn < 2 ^ 22
    → mode ≤ supervisor_mode
    → decode_vm_info c mode s ≡ (returned (sv32_info (c.satp_ppn * 2 ^ 12)), s)
unfolding decode_vm_info switch
decode_lem c mode s e small le =
    let z : u64 (c.satp_ppn * 2 ^ 12) ≡ c.satp_ppn * 2 ^ 12 = omega arith in
    let l : leb mode 1 ≡ true = ground arith in rw (e, l, z) refl

-- Where `satp` selects Sv32, the memory holds words and reading it changes nothing, and the mode is U
-- or S, the walk for a 32-bit address does what the architecture says of the page tables: the address
-- that they map it to where they permit the access, after marking the entry as accessed or dirty if it
-- is not marked yet; a page fault of the kind of access, with the address, in every other case.
pub walk-sv32 :
    {S : Type 0} (mem : MmuMemory S) (c : Control) (type : MemoryAccessType) (mode vaddr : ℕ)
    (s : S) (read : ℕ → ℕ)
    → c.satp_mode ≡ 1
    → c.satp_ppn < 2 ^ 22
    → mode ≤ supervisor_mode
    → vaddr < 2 ^ 32
    → ((a : ℕ) → read a < 2 ^ 32)
    → ((a : ℕ) → mem.mmu_load_pte32 a s ≡ (returned (read a), s))
    → walk mem c 32 vaddr type mode s
      ≡ outcome mem c type vaddr (sv32 read c.satp_ppn c type (mode == supervisor_mode) vaddr) s
unfolding walk
walk-sv32 mem c type mode vaddr s read e small le address words reads =
    let base : ℕ = c.satp_ppn * 2 ^ 12 in
    let s_mode : Bool = mode == supervisor_mode in
    >>=-returned (decode_vm_info c mode)
      (λ (vm : VmInfo).
        walk_from mem c vm type s_mode vaddr
          (if check_vaddr_extension 32 vaddr vm then vm.levels else 0) vm.ptbase)
      s s (sv32_info base) (decode_lem c mode s e small le)
    ∙ ap (λ b. walk_from mem c (sv32_info base) type s_mode vaddr (if b then 2 else 0) base s)
        (extension_lem vaddr base)
    ∙ levels_lem mem c type s_mode vaddr s read address words reads c.satp_ppn small
