-- ===== src/Mmu/Entry.antt =====
-- The cache of translations in `GenericMMU` of vp/src/core/common/mmu.h.
use symex_vp.Common.{ℕ, ◌-◌, ◌^◌}
use symex_vp.Mmu.Walk.{MemoryAccessType}

pub record TlbEntry : Type 0 where
  pub ppn : ℕ
  pub vpn : ℕ

-- `tlb[mode][type][idx]`
abbrev pub Tlb : Type 0
Tlb = ℕ → MemoryAccessType → ℕ → TlbEntry

-- The `-1` that the entries are filled with.
abbrev pub invalid_entry : TlbEntry
invalid_entry = record { ppn = 2 ^ 64 - 1; vpn = 2 ^ 64 - 1 }
