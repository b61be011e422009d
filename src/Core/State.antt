-- ===== src/Core/State.antt =====
-- The state of a hart: `struct ISS` of vp/src/core/rv32/iss.h over the registers and interrupts of
-- Iss/Hart, and what its memory interface and memory management unit keep (mem.h, mmu.h). `V` are the
-- values of the registers and `D` is the state of the devices.
use symex_vp.Common.{ℕ, Bool, List, Option}
use symex_vp.Instr.Mapping.{Mapping}
use symex_vp.Iss.Hart.{Hart}
use symex_vp.Mmu.Entry.{Tlb}

-- vp/src/core/common/core_defs.h
pub data CoreExecStatus : Type 0 where
  runnable hit_breakpoint terminated : CoreExecStatus

pub record State (V : Type 0) (D : Type 0) : Type 0 where
  pub hart : Hart
  pub regs : List V
  pub op : Mapping
  pub status : CoreExecStatus
  pub debug_mode : Bool
  pub breakpoints : List ℕ
  pub shall_exit : Bool
  pub ignore_wfi : Bool
  pub total_num_instr : ℕ
  -- The branches given to `tracer.add`, the last first: condition, value and address.
  pub branches : List (Bool × V × ℕ)
  pub lr_addr : Option V
  pub has_mmu : Bool
  pub page_fault_on_ad : Bool
  pub tlb : Tlb
  pub devices : D

module _ {V : Type 0} {D : Type 0} where
  abbrev pub on_hart : (Hart → Hart) → State V D → State V D
  on_hart f s = record s { hart = f s.hart }

  abbrev pub set_pc : ℕ → State V D → State V D
  set_pc pc s = record s { hart = record s.hart { pc = pc } }
