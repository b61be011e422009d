-- ===== src/Iss/Write.antt =====
-- Writing a control and status register: `set_csr_value` of vp/src/core/rv32/iss.cpp.
use symex_vp.Common.{ℕ, if◌then◌else◌, truth, bit_and, bit_or, not32, switch, [], ◌∷◌, none, some}
use symex_vp.Csr.Fields.{get, put, tvm, fflags, frm, has_extension, c_extension}
use symex_vp.Csr.Machine.{
  tselect_addr, tdata1_addr, tdata2_addr, tdata3_addr, dcsr_addr, dpc_addr, dscratch0_addr,
  dscratch1_addr, mstatus_addr, misa_addr, medeleg_addr, mideleg_addr, mie_addr, mtvec_addr,
  mcounteren_addr, mcountinhibit_addr, mepc_addr, mip_addr,
}
use symex_vp.Csr.Lower.{
  sstatus_addr, sedeleg_addr, sideleg_addr, sie_addr, stvec_addr, scounteren_addr, sepc_addr,
  sip_addr, satp_addr, ustatus_addr, uie_addr, utvec_addr, uepc_addr, uip_addr, fflags_addr,
  frm_addr, fcsr_addr,
}
use symex_vp.Csr.Masks.{
  mie_mask, sie_mask, uie_mask, mip_write_mask, sip_mask, uip_mask, medeleg_mask, mideleg_mask,
  mtvec_mask, mcounteren_mask, mcountinhibit_mask, sedeleg_mask, sideleg_mask, mstatus_mask,
  sstatus_mask, ustatus_mask, satp_mask, fcsr_mask,
}
use symex_vp.Csr.Register.{
  Register, register_mapping, mstatus, misa, medeleg, mideleg, mie, mtvec, mcounteren,
  mcountinhibit, mepc, mip, sedeleg, sideleg, stvec, scounteren, sepc, satp, utvec, uepc, fcsr,
}
use symex_vp.Iss.Hart.{Hart, Result, returned, store}
use symex_vp.Iss.Rights.{raise_illegal_instruction, is_hpmcounter}

-- `x.reg = (x.reg & ~mask) | (value & mask)`
abbrev pub merge : ℕ → ℕ → ℕ → ℕ
merge mask value reg = bit_or (bit_and reg (not32 mask)) (bit_and value mask)

abbrev pub masked : Register → ℕ → ℕ → Hart → Hart
masked r mask value h = store r (merge mask value (h.csrs r)) h

abbrev pub pc_alignment_mask : Hart → ℕ
pc_alignment_mask h = if has_extension (h.csrs misa) c_extension then not32 0x1 else not32 0x3

-- `default_write32`, for the addresses that the table has.
unfoldable pub default_write : Hart → ℕ → ℕ → Result Hart
default_write h addr value = elim (register_mapping addr) [
  | none ↦ raise_illegal_instruction h
  | some r ↦ returned (store r value h)
]

unfoldable pub set_csr_value : ℕ → ℕ → Hart → Result Hart
set_csr_value addr value h =
    if is_hpmcounter addr
    then returned h
    else switch addr
        ((misa_addr, returned h)
          ∷ (
            satp_addr,
            if truth (get tvm (h.csrs mstatus))
                then raise_illegal_instruction h
                else returned (masked satp satp_mask value h),
          )
          ∷ (mtvec_addr, returned (masked mtvec mtvec_mask value h))
          ∷ (stvec_addr, returned (masked stvec mtvec_mask value h))
          ∷ (utvec_addr, returned (masked utvec mtvec_mask value h))
          ∷ (mepc_addr, returned (masked mepc (pc_alignment_mask h) value h))
          ∷ (sepc_addr, returned (masked sepc (pc_alignment_mask h) value h))
          ∷ (uepc_addr, returned (masked uepc (pc_alignment_mask h) value h))
          ∷ (mstatus_addr, returned (masked mstatus mstatus_mask value h))
          ∷ (sstatus_addr, returned (masked mstatus sstatus_mask value h))
          ∷ (ustatus_addr, returned (masked mstatus ustatus_mask value h))
          ∷ (mip_addr, returned (masked mip mip_write_mask value h))
          ∷ (sip_addr, returned (masked mip sip_mask value h))
          ∷ (uip_addr, returned (masked mip uip_mask value h))
          ∷ (mie_addr, returned (masked mie mie_mask value h))
          ∷ (sie_addr, returned (masked mie sie_mask value h))
          ∷ (uie_addr, returned (masked mie uie_mask value h))
          ∷ (mideleg_addr, returned (masked mideleg mideleg_mask value h))
          ∷ (medeleg_addr, returned (masked medeleg medeleg_mask value h))
          ∷ (sideleg_addr, returned (masked sideleg sideleg_mask value h))
          ∷ (sedeleg_addr, returned (masked sedeleg sedeleg_mask value h))
          ∷ (mcounteren_addr, returned (masked mcounteren mcounteren_mask value h))
          ∷ (scounteren_addr, returned (masked scounteren mcounteren_mask value h))
          ∷ (mcountinhibit_addr, returned (masked mcountinhibit mcountinhibit_mask value h))
          ∷ (fcsr_addr, returned (masked fcsr fcsr_mask value h))
          ∷ (fflags_addr, returned (store fcsr (put fflags value (h.csrs fcsr)) h))
          ∷ (frm_addr, returned (store fcsr (put frm value (h.csrs fcsr)) h))
          ∷ (tselect_addr, returned h)
          ∷ (tdata1_addr, returned h)
          ∷ (tdata2_addr, returned h)
          ∷ (tdata3_addr, returned h)
          ∷ (dcsr_addr, returned h)
          ∷ (dpc_addr, returned h)
          ∷ (dscratch0_addr, returned h)
          ∷ (dscratch1_addr, returned h)
          ∷ [])
        (default_write h addr value)
