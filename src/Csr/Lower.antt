-- ===== src/Csr/Lower.antt =====
-- The addresses of the supervisor, user and floating-point registers in vp/src/core/rv32/csr.h.
use symex_vp.Common.{ℕ}

abbrev pub sstatus_addr : ℕ
sstatus_addr = 0x100

abbrev pub sedeleg_addr : ℕ
sedeleg_addr = 0x102

abbrev pub sideleg_addr : ℕ
sideleg_addr = 0x103

abbrev pub sie_addr : ℕ
sie_addr = 0x104

abbrev pub stvec_addr : ℕ
stvec_addr = 0x105

abbrev pub scounteren_addr : ℕ
scounteren_addr = 0x106

abbrev pub sscratch_addr : ℕ
sscratch_addr = 0x140

abbrev pub sepc_addr : ℕ
sepc_addr = 0x141

abbrev pub scause_addr : ℕ
scause_addr = 0x142

abbrev pub stval_addr : ℕ
stval_addr = 0x143

abbrev pub sip_addr : ℕ
sip_addr = 0x144

abbrev pub satp_addr : ℕ
satp_addr = 0x180

abbrev pub ustatus_addr : ℕ
ustatus_addr = 0x000

abbrev pub uie_addr : ℕ
uie_addr = 0x004

abbrev pub utvec_addr : ℕ
utvec_addr = 0x005

abbrev pub uscratch_addr : ℕ
uscratch_addr = 0x040

abbrev pub uepc_addr : ℕ
uepc_addr = 0x041

abbrev pub ucause_addr : ℕ
ucause_addr = 0x042

abbrev pub utval_addr : ℕ
utval_addr = 0x043

abbrev pub uip_addr : ℕ
uip_addr = 0x044

abbrev pub fflags_addr : ℕ
fflags_addr = 0x001

abbrev pub frm_addr : ℕ
frm_addr = 0x002

abbrev pub fcsr_addr : ℕ
fcsr_addr = 0x003
