-- ===== src/Csr/Register.antt =====
-- The members of `struct csr_table` in vp/src/core/rv32/csr.h and its map from addresses to them.
-- The table is a function from the members to their 32-bit words; a 64-bit counter is its two words.
use symex_vp.Common.{
  ℕ, ◌+◌, ◌-◌, ◌*◌, [], ◌∷◌, Option, none, some, ltb, leb, ◌==◌, ◌&&◌, if◌then◌else◌, switch,
}
use symex_vp.Csr.Machine.{
  cycle_addr, cycleh_addr, time_addr, timeh_addr, instret_addr, instreth_addr, mcycle_addr,
  mcycleh_addr, mtime_addr, mtimeh_addr, minstret_addr, minstreth_addr, mvendorid_addr,
  marchid_addr, mimpid_addr, mhartid_addr, mstatus_addr, misa_addr, medeleg_addr, mideleg_addr,
  mie_addr, mtvec_addr, mcounteren_addr, mcountinhibit_addr, mscratch_addr, mepc_addr, mcause_addr,
  mtval_addr, mip_addr, pmpcfg0_addr, pmpaddr0_addr,
}
use symex_vp.Csr.Lower.{
  sedeleg_addr, sideleg_addr, stvec_addr, scounteren_addr, sscratch_addr, sepc_addr, scause_addr,
  stval_addr, satp_addr, utvec_addr, uscratch_addr, uepc_addr, ucause_addr, utval_addr, fcsr_addr,
}

pub data Register : Type 0 where
  cycle_low cycle_high time_low time_high instret_low instret_high mvendorid marchid mimpid mhartid
        mstatus misa medeleg mideleg mie mtvec mcounteren mcountinhibit mscratch mepc mcause mtval
        mip sedeleg sideleg stvec scounteren sscratch sepc scause stval satp utvec uscratch uepc
        ucause utval fcsr :
      Register
  pmpaddr pmpcfg : ℕ → Register

-- A number for each member, to tell them apart.
abbrev pub index : Register → ℕ
index cycle_low = 0
index cycle_high = 1
index time_low = 2
index time_high = 3
index instret_low = 4
index instret_high = 5
index mvendorid = 6
index marchid = 7
index mimpid = 8
index mhartid = 9
index mstatus = 10
index misa = 11
index medeleg = 12
index mideleg = 13
index mie = 14
index mtvec = 15
index mcounteren = 16
index mcountinhibit = 17
index mscratch = 18
index mepc = 19
index mcause = 20
index mtval = 21
index mip = 22
index sedeleg = 23
index sideleg = 24
index stvec = 25
index scounteren = 26
index sscratch = 27
index sepc = 28
index scause = 29
index stval = 30
index satp = 31
index utvec = 32
index uscratch = 33
index uepc = 34
index ucause = 35
index utval = 36
index fcsr = 37
index (pmpaddr i) = 38 + 2 * i
index (pmpcfg i) = 39 + 2 * i

abbrev pub Table : Type 0
Table = Register → ℕ

abbrev pub write : Table → Register → ℕ → Table
write t r v s = if index s == index r then v else t s

-- The entries that the loops of the constructor add.
unfoldable pub pmp_mapping : ℕ → Option Register
pmp_mapping addr =
    if leb pmpaddr0_addr addr && ltb addr (pmpaddr0_addr + 16)
    then some (pmpaddr (addr - pmpaddr0_addr))
    else (if leb pmpcfg0_addr addr && ltb addr (pmpcfg0_addr + 4)
        then some (pmpcfg (addr - pmpcfg0_addr))
        else none)

unfoldable pub register_mapping : ℕ → Option Register
unfolding pmp_mapping switch
register_mapping addr =
    switch addr
      ((cycle_addr, some cycle_low)
        ∷ (cycleh_addr, some cycle_high)
        ∷ (time_addr, some time_low)
        ∷ (timeh_addr, some time_high)
        ∷ (instret_addr, some instret_low)
        ∷ (instreth_addr, some instret_high)
        ∷ (mcycle_addr, some cycle_low)
        ∷ (mcycleh_addr, some cycle_high)
        ∷ (mtime_addr, some time_low)
        ∷ (mtimeh_addr, some time_high)
        ∷ (minstret_addr, some instret_low)
        ∷ (minstreth_addr, some instret_high)
        ∷ (mvendorid_addr, some mvendorid)
        ∷ (marchid_addr, some marchid)
        ∷ (mimpid_addr, some mimpid)
        ∷ (mhartid_addr, some mhartid)
        ∷ (mstatus_addr, some mstatus)
        ∷ (misa_addr, some misa)
        ∷ (medeleg_addr, some medeleg)
        ∷ (mideleg_addr, some mideleg)
        ∷ (mie_addr, some mie)
        ∷ (mtvec_addr, some mtvec)
        ∷ (mcounteren_addr, some mcounteren)
        ∷ (mcountinhibit_addr, some mcountinhibit)
        ∷ (mscratch_addr, some mscratch)
        ∷ (mepc_addr, some mepc)
        ∷ (mcause_addr, some mcause)
        ∷ (mtval_addr, some mtval)
        ∷ (mip_addr, some mip)
        ∷ (sedeleg_addr, some sedeleg)
        ∷ (sideleg_addr, some sideleg)
        ∷ (stvec_addr, some stvec)
        ∷ (scounteren_addr, some scounteren)
        ∷ (sscratch_addr, some sscratch)
        ∷ (sepc_addr, some sepc)
        ∷ (scause_addr, some scause)
        ∷ (stval_addr, some stval)
        ∷ (satp_addr, some satp)
        ∷ (utvec_addr, some utvec)
        ∷ (uscratch_addr, some uscratch)
        ∷ (uepc_addr, some uepc)
        ∷ (ucause_addr, some ucause)
        ∷ (utval_addr, some utval)
        ∷ (fcsr_addr, some fcsr)
        ∷ [])
      (pmp_mapping addr)
