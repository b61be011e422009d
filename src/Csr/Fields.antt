-- ===== src/Csr/Fields.antt =====
-- The bit fields of the registers in vp/src/core/rv32/csr.h: a field is its lowest bit and its width,
-- as the unions there lay it out.
use symex_vp.Common.{ℕ, ◌+◌, ◌*◌, ◌/◌, ◌%◌, ◌^◌, Bool, truth, bit_and}

abbrev pub Field : Type 0
Field = ℕ × ℕ

-- Reading and assigning a member of such a union.
abbrev pub get : Field → ℕ → ℕ
get (pos, width) reg = reg / 2 ^ pos % 2 ^ width

abbrev pub put : Field → ℕ → ℕ → ℕ
put (pos, width) v reg =
    reg / 2 ^ (pos + width) * 2 ^ (pos + width) + v % 2 ^ width * 2 ^ pos + reg % 2 ^ pos

-- `struct csr_mstatus`
abbrev pub uie : Field
uie = (0, 1)

abbrev pub sie : Field
sie = (1, 1)

abbrev pub mie_flag : Field
mie_flag = (3, 1)

abbrev pub upie : Field
upie = (4, 1)

abbrev pub spie : Field
spie = (5, 1)

abbrev pub mpie : Field
mpie = (7, 1)

abbrev pub spp : Field
spp = (8, 1)

abbrev pub mpp : Field
mpp = (11, 2)

abbrev pub tvm : Field
tvm = (20, 1)

abbrev pub tw : Field
tw = (21, 1)

-- `struct csr_mip`
abbrev pub usip : Field
usip = (0, 1)

abbrev pub ssip : Field
ssip = (1, 1)

abbrev pub msip : Field
msip = (3, 1)

abbrev pub utip : Field
utip = (4, 1)

abbrev pub stip : Field
stip = (5, 1)

abbrev pub mtip : Field
mtip = (7, 1)

abbrev pub ueip : Field
ueip = (8, 1)

abbrev pub seip : Field
seip = (9, 1)

abbrev pub meip : Field
meip = (11, 1)

-- `struct csr_mcause`
abbrev pub exception_code : Field
exception_code = (0, 31)

abbrev pub interrupt : Field
interrupt = (31, 1)

-- `struct csr_mtvec`
abbrev pub mode : Field
mode = (0, 2)

abbrev pub base : Field
base = (2, 30)

-- `struct csr_mcountinhibit`
abbrev pub cy : Field
cy = (0, 1)

abbrev pub ir : Field
ir = (2, 1)

-- `struct csr_fcsr`
abbrev pub fflags : Field
fflags = (0, 5)

abbrev pub frm : Field
frm = (5, 3)

-- `is_bitset` of a register.
abbrev pub is_bitset : ℕ → ℕ → Bool
is_bitset reg bitpos = truth (bit_and reg (1 * 2 ^ bitpos))

-- The letters of `csr_misa`: bits of its word.
abbrev pub has_extension : ℕ → ℕ → Bool
has_extension misa letter = truth (bit_and misa letter)

abbrev pub c_extension : ℕ
c_extension = 0x4

abbrev pub f_extension : ℕ
f_extension = 0x20

abbrev pub s_extension : ℕ
s_extension = 0x40000

abbrev pub u_extension : ℕ
u_extension = 0x100000
