-- ===== src/Csr/Masks.antt =====
-- The masks of the control and status registers in vp/src/core/rv32/csr.h.
use symex_vp.Common.{ℕ, not32}

abbrev pub mie_mask : ℕ
mie_mask = 0xbbb

abbrev pub sie_mask : ℕ
sie_mask = 0x333

abbrev pub uie_mask : ℕ
uie_mask = 0x111

abbrev pub mip_write_mask : ℕ
mip_write_mask = 0x333

abbrev pub mip_read_mask : ℕ
mip_read_mask = mie_mask

abbrev pub sip_mask : ℕ
sip_mask = 0x3

abbrev pub uip_mask : ℕ
uip_mask = 0x1

abbrev pub medeleg_mask : ℕ
medeleg_mask = 0xbbff

abbrev pub mideleg_mask : ℕ
mideleg_mask = mie_mask

abbrev pub mtvec_mask : ℕ
mtvec_mask = not32 2

abbrev pub mcounteren_mask : ℕ
mcounteren_mask = 0x7

abbrev pub mcountinhibit_mask : ℕ
mcountinhibit_mask = 0x5

abbrev pub sedeleg_mask : ℕ
sedeleg_mask = 0xb1ff

abbrev pub sideleg_mask : ℕ
sideleg_mask = mideleg_mask

abbrev pub mstatus_mask : ℕ
mstatus_mask = 0x807ff9bb

abbrev pub sstatus_mask : ℕ
sstatus_mask = 0x800de133

abbrev pub ustatus_mask : ℕ
ustatus_mask = 0x11

abbrev pub satp_mask : ℕ
satp_mask = 0x803fffff

abbrev pub satp_mode : ℕ
satp_mode = 0x80000000

abbrev pub fcsr_mask : ℕ
fcsr_mask = 0xff
