-- ===== src/Iss/Read.antt =====
-- Reading a control and status register: `get_csr_value` of vp/src/core/rv32/iss.cpp.
use symex_vp.Common.{
  ℕ, ◌/◌, ◌%◌, ◌^◌, not, if◌then◌else◌, truth, bit_and, switch, [], ◌∷◌, none, some,
}
use symex_vp.Csr.Fields.{get, tvm, fflags, frm}
use symex_vp.Csr.Machine.{
  time_addr, timeh_addr, mcycle_addr, mcycleh_addr, mtime_addr, mtimeh_addr, minstret_addr,
  minstreth_addr, tselect_addr, tdata1_addr, tdata2_addr, tdata3_addr, dcsr_addr, dpc_addr,
  dscratch0_addr, dscratch1_addr, mstatus_addr, mie_addr, mip_addr,
}
use symex_vp.Csr.Lower.{
  sstatus_addr, sie_addr, sip_addr, satp_addr, ustatus_addr, uie_addr, uip_addr, fflags_addr,
  frm_addr, fcsr_addr,
}
use symex_vp.Csr.Masks.{
  mie_mask, sie_mask, uie_mask, mip_read_mask, sip_mask, uip_mask, mstatus_mask, sstatus_mask,
  ustatus_mask, fcsr_mask,
}
use symex_vp.Csr.Register.{
  register_mapping, cycle_low, cycle_high, time_low, time_high, instret_low, instret_high, mstatus,
  mie, mip, fcsr,
}
use symex_vp.Iss.Hart.{Hart, Result, returned, store}
use symex_vp.Iss.Rights.{
  raise_illegal_instruction, is_hpmcounter, validate_csr_counter_read_access_rights,
}

-- The words of a 64-bit counter.
abbrev pub low_word : ℕ → ℕ
low_word n = n % 2 ^ 32

abbrev pub high_word : ℕ → ℕ
high_word n = n / 2 ^ 32 % 2 ^ 32

unfoldable pub compute_and_get_current_cycles : Hart → ℕ
compute_and_get_current_cycles h = h.cycle_counter / h.cycle_time

abbrev pub with_time : Hart → ℕ → Hart
with_time h mtime = store time_high (high_word mtime) (store time_low (low_word mtime) h)

abbrev pub with_cycle : Hart → Hart
with_cycle h =
    store cycle_high (high_word (compute_and_get_current_cycles h))
      (store cycle_low (low_word (compute_and_get_current_cycles h)) h)

-- `default_read32`, for the addresses that the table has.
unfoldable pub default_read : Hart → ℕ → Result (Hart × ℕ)
default_read h addr = elim (register_mapping addr) [
  | none ↦ raise_illegal_instruction h
  | some r ↦ returned (h, h.csrs r)
]

-- `mtime` is what `clint->update_and_get_mtime()` returns.
unfoldable pub get_csr_value : ℕ → ℕ → Hart → Result (Hart × ℕ)
get_csr_value mtime addr h =
    if not (validate_csr_counter_read_access_rights addr h)
    then raise_illegal_instruction h
    else (if is_hpmcounter addr
        then returned (h, 0)
        else switch addr
            ((time_addr, returned (with_time h mtime, low_word mtime))
              ∷ (mtime_addr, returned (with_time h mtime, low_word mtime))
              ∷ (timeh_addr, returned (with_time h mtime, high_word mtime))
              ∷ (mtimeh_addr, returned (with_time h mtime, high_word mtime))
              ∷ (mcycle_addr, returned (with_cycle h, low_word (compute_and_get_current_cycles h)))
              ∷ (
                mcycleh_addr,
                returned (with_cycle h, high_word (compute_and_get_current_cycles h)),
              )
              ∷ (minstret_addr, returned (h, h.csrs instret_low))
              ∷ (minstreth_addr, returned (h, h.csrs instret_high))
              ∷ (mstatus_addr, returned (h, bit_and (h.csrs mstatus) mstatus_mask))
              ∷ (sstatus_addr, returned (h, bit_and (h.csrs mstatus) sstatus_mask))
              ∷ (ustatus_addr, returned (h, bit_and (h.csrs mstatus) ustatus_mask))
              ∷ (mip_addr, returned (h, bit_and (h.csrs mip) mip_read_mask))
              ∷ (sip_addr, returned (h, bit_and (h.csrs mip) sip_mask))
              ∷ (uip_addr, returned (h, bit_and (h.csrs mip) uip_mask))
              ∷ (mie_addr, returned (h, bit_and (h.csrs mie) mie_mask))
              ∷ (sie_addr, returned (h, bit_and (h.csrs mie) sie_mask))
              ∷ (uie_addr, returned (h, bit_and (h.csrs mie) uie_mask))
              ∷ (
                satp_addr,
                if truth (get tvm (h.csrs mstatus))
                    then raise_illegal_instruction h
                    else default_read h addr,
              )
              ∷ (fcsr_addr, returned (h, bit_and (h.csrs fcsr) fcsr_mask))
              ∷ (fflags_addr, returned (h, get fflags (h.csrs fcsr)))
              ∷ (frm_addr, returned (h, get frm (h.csrs fcsr)))
              ∷ (tselect_addr, returned (h, 1))
              ∷ (tdata1_addr, returned (h, 0))
              ∷ (tdata2_addr, returned (h, 0))
              ∷ (tdata3_addr, returned (h, 0))
              ∷ (dcsr_addr, returned (h, 0))
              ∷ (dpc_addr, returned (h, 0))
              ∷ (dscratch0_addr, returned (h, 0))
              ∷ (dscratch1_addr, returned (h, 0))
              ∷ [])
            (default_read h addr))
