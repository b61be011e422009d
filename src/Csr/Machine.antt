-- ===== src/Csr/Machine.antt =====
-- The addresses of the counter, debug and machine registers in vp/src/core/rv32/csr.h.
use symex_vp.Common.{ℕ}

abbrev pub cycle_addr : ℕ
cycle_addr = 0xC00

abbrev pub cycleh_addr : ℕ
cycleh_addr = 0xC80

abbrev pub time_addr : ℕ
time_addr = 0xC01

abbrev pub timeh_addr : ℕ
timeh_addr = 0xC81

abbrev pub instret_addr : ℕ
instret_addr = 0xC02

abbrev pub instreth_addr : ℕ
instreth_addr = 0xC82

abbrev pub mcycle_addr : ℕ
mcycle_addr = 0xB00

abbrev pub mcycleh_addr : ℕ
mcycleh_addr = 0xB80

abbrev pub mtime_addr : ℕ
mtime_addr = 0xB01

abbrev pub mtimeh_addr : ℕ
mtimeh_addr = 0xB81

abbrev pub minstret_addr : ℕ
minstret_addr = 0xB02

abbrev pub minstreth_addr : ℕ
minstreth_addr = 0xB82

abbrev pub tselect_addr : ℕ
tselect_addr = 0x7A0

abbrev pub tdata1_addr : ℕ
tdata1_addr = 0x7A1

abbrev pub tdata2_addr : ℕ
tdata2_addr = 0x7A2

abbrev pub tdata3_addr : ℕ
tdata3_addr = 0x7A3

abbrev pub dcsr_addr : ℕ
dcsr_addr = 0x7B0

abbrev pub dpc_addr : ℕ
dpc_addr = 0x7B1

abbrev pub dscratch0_addr : ℕ
dscratch0_addr = 0x7B2

abbrev pub dscratch1_addr : ℕ
dscratch1_addr = 0x7B3

abbrev pub mvendorid_addr : ℕ
mvendorid_addr = 0xF11

abbrev pub marchid_addr : ℕ
marchid_addr = 0xF12

abbrev pub mimpid_addr : ℕ
mimpid_addr = 0xF13

abbrev pub mhartid_addr : ℕ
mhartid_addr = 0xF14

abbrev pub mstatus_addr : ℕ
mstatus_addr = 0x300

abbrev pub misa_addr : ℕ
misa_addr = 0x301

abbrev pub medeleg_addr : ℕ
medeleg_addr = 0x302

abbrev pub mideleg_addr : ℕ
mideleg_addr = 0x303

abbrev pub mie_addr : ℕ
mie_addr = 0x304

abbrev pub mtvec_addr : ℕ
mtvec_addr = 0x305

abbrev pub mcounteren_addr : ℕ
mcounteren_addr = 0x306

abbrev pub mcountinhibit_addr : ℕ
mcountinhibit_addr = 0x320

abbrev pub mscratch_addr : ℕ
mscratch_addr = 0x340

abbrev pub mepc_addr : ℕ
mepc_addr = 0x341

abbrev pub mcause_addr : ℕ
mcause_addr = 0x342

abbrev pub mtval_addr : ℕ
mtval_addr = 0x343

abbrev pub mip_addr : ℕ
mip_addr = 0x344

abbrev pub pmpcfg0_addr : ℕ
pmpcfg0_addr = 0x3A0

abbrev pub pmpaddr0_addr : ℕ
pmpaddr0_addr = 0x3B0
