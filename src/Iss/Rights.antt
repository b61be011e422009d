-- ===== src/Iss/Rights.antt =====
-- Who may access a control and status register: `is_invalid_csr_access` and
-- `validate_csr_counter_read_access_rights` of vp/src/core/rv32/iss.cpp.
use symex_vp.Common.{ℕ, Bool, true, ◌&&◌, ◌||◌, not, ◌==◌, ltb, leb, if◌then◌else◌, bit_and, shr}
use symex_vp.Csr.Fields.{has_extension, is_bitset, f_extension, s_extension, u_extension}
use symex_vp.Csr.Register.{misa, mcounteren, scounteren}
use symex_vp.Csr.Lower.{fflags_addr, frm_addr, fcsr_addr}
use symex_vp.Iss.Hart.{Hart, Result, returned, raised, supervisor_mode, user_mode, s_mode, u_mode}

abbrev pub exc_illegal_instr : ℕ
exc_illegal_instr = 2

abbrev pub raise_illegal_instruction {ℓ} : {A : Type ℓ} → Hart → Result A
raise_illegal_instruction h = raised (record { reason = exc_illegal_instr; mtval = h.instr })

-- The cases of `SWITCH_CASE_MATCH_ANY_HPMCOUNTER_RV32`: five runs of 29 addresses.
unfoldable pub is_hpmcounter : ℕ → Bool
is_hpmcounter addr =
    (leb 0xc03 addr && leb addr 0xc1f)
    || ((leb 0xc83 addr && leb addr 0xc9f)
        || ((leb 0xb03 addr && leb addr 0xb1f)
            || ((leb 0xb83 addr && leb addr 0xb9f) || (leb 0x323 addr && leb addr 0x33f))))

unfoldable pub is_invalid_csr_access : ℕ → Bool → Hart → Result Bool
is_invalid_csr_access csr_addr is_write h =
    let csr_prv = shr (bit_and 0x300 csr_addr) 8 in
    let csr_readonly = shr (bit_and 0xc00 csr_addr) 10 == 3 in
    let s_invalid = (csr_prv == supervisor_mode) && not (has_extension (h.csrs misa) s_extension) in
    let u_invalid = (csr_prv == user_mode) && not (has_extension (h.csrs misa) u_extension) in
    let is_float =
      (csr_addr == fflags_addr) || ((csr_addr == frm_addr) || (csr_addr == fcsr_addr)) in
    if is_float && not (has_extension (h.csrs misa) f_extension)
    then raise_illegal_instruction h
    else returned ((is_write && csr_readonly) || (ltb h.prv csr_prv || (s_invalid || u_invalid)))

-- Whether the read raises no trap.
unfoldable pub validate_csr_counter_read_access_rights : ℕ → Hart → Bool
validate_csr_counter_read_access_rights addr h =
    let cnt = bit_and addr 0x1f in
    let m_allows = is_bitset (h.csrs mcounteren) cnt in
    let s_allows = is_bitset (h.csrs scounteren) cnt in
    if (leb 0xc00 addr && leb addr 0xc1f) || (leb 0xc80 addr && leb addr 0xc9f)
    then not ((s_mode h && not m_allows) || (u_mode h && (not m_allows || not s_allows)))
    else true
