-- ===== src/Core/Memory/Translate.antt =====
-- `translate_virtual_to_physical_addr` and `flush_tlb` of vp/src/core/common/mmu.h, over the walk.
use symex_vp.Common.{
  ℕ, ◌*◌, ◌/◌, ◌%◌, ◌^◌, Bool, ◌&&◌, ◌||◌, not, ◌==◌, leb, if◌then◌else◌, bit_or, bit,
}
use symex_vp.Csr.Register.{mstatus, satp}
use symex_vp.Csr.Fields.{get, mpp}
use symex_vp.Iss.Hart.{Hart, returned, machine_mode}
use symex_vp.Iss.Action.{Action, pure, abort, modify, ◌>>=◌, ◌>>◌}
use symex_vp.Mmu.Walk.{
  MemoryAccessType, is_fetch, is_load, is_store, Control, MmuMemory, walk, pgshift, pgsize,
}
use symex_vp.Mmu.Entry.{Tlb, TlbEntry, invalid_entry}
use symex_vp.Core.State.{State}

abbrev pub same_type : MemoryAccessType → MemoryAccessType → Bool
same_type a b =
    (is_fetch a && is_fetch b) || ((is_load a && is_load b) || (is_store a && is_store b))

-- `tlb[mode][type][idx] = e`
abbrev pub insert : ℕ → MemoryAccessType → ℕ → TlbEntry → Tlb → Tlb
insert mode type idx e tlb m t i =
    if (m == mode) && (same_type t type && (i == idx)) then e else tlb m t i

abbrev pub satp_ppn : Hart → ℕ
satp_ppn h = h.csrs satp % 2 ^ 22

abbrev pub satp_mode : Hart → ℕ
satp_mode h = h.csrs satp / 2 ^ 31

-- `x.ppn | (vaddr & PGMASK)`
abbrev pub hit_address : TlbEntry → ℕ → ℕ
hit_address x vaddr = bit_or x.ppn (vaddr % pgsize)

-- `PGMASK` has 32 bits, and so has its complement: the page that is kept has no higher bits.
abbrev pub kept_page : ℕ → ℕ
kept_page paddr = paddr % 2 ^ 32 / pgsize * pgsize

module _ {V : Type 0} {D : Type 0} where
  -- What the walk reads of the hart: `satp`, `mstatus.sum` and `mstatus.mxr`.
  abbrev pub control : State V D → Control
  control s = record {
    satp_mode = satp_mode s.hart;
    satp_ppn = satp_ppn s.hart;
    sum = bit (s.hart.csrs mstatus) 18;
    mxr = bit (s.hart.csrs mstatus) 19;
    page_fault_on_ad = s.page_fault_on_ad;
  }

  -- The mode of an access: that of `mstatus.mpp` for data under `mstatus.mprv`.
  abbrev pub access_mode : MemoryAccessType → State V D → ℕ
  access_mode type s =
      if not (is_fetch type) && bit (s.hart.csrs mstatus) 17
      then get mpp (s.hart.csrs mstatus)
      else s.hart.prv

  unfoldable pub flush_tlb : State V D → State V D
  flush_tlb s = record s { tlb = λ mode type idx. invalid_entry }

  unfoldable pub translate_virtual_to_physical_addr :
      MmuMemory (State V D) → ℕ → MemoryAccessType → Action (State V D) ℕ
  unfolding walk
  translate_virtual_to_physical_addr mem vaddr type s =
      let mode = access_mode type s in
      let vpn = vaddr / 2 ^ pgshift in
      let idx = vpn % 256 in
      if satp_mode s.hart == 0
      then (returned vaddr, s)
      else if mode == machine_mode
      then (returned vaddr, s)
      else if not (leb mode 1)
      then abort s
      else (let x = s.tlb mode type idx in
          if x.vpn == vpn
          then (returned (hit_address x vaddr), s)
          else (walk mem (control s) 32 vaddr type mode >>= λ paddr.
                modify (λ t. record t {
                  tlb = insert mode type idx (record { ppn = kept_page paddr; vpn = vpn }) t.tlb;
                })
                >> pure paddr)
              s)
