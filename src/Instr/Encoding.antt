-- ===== src/Instr/Encoding.antt =====
-- The constants `*_ENCODING` of vp/src/core/common/instr.cpp, one for each instruction.
use symex_vp.Common.{ℕ}
use symex_vp.Instr.Mapping.{
  Mapping, undef, lui, auipc, jal, jalr, beq, bne, blt, bge, bltu, bgeu, lb, lh, lw, lbu, lhu, sb,
  sh, sw, addi, slti, sltiu, xori, ori, andi, slli, srli, srai, add, sub, sll, slt, sltu, xor, srl,
  sra, or, and, fence, ecall, ebreak, fence_i, csrrw, csrrs, csrrc, csrrwi, csrrsi, csrrci, mul,
  mulh, mulhsu, mulhu, div, divu, rem, remu, lr_w, sc_w, amoswap_w, amoadd_w, amoxor_w, amoand_w,
  amoor_w, amomin_w, amomax_w, amominu_w, amomaxu_w, lwu, ld, sd, addiw, slliw, srliw, sraiw, addw,
  subw, sllw, srlw, sraw, mulw, divw, divuw, remw, remuw, lr_d, sc_d, amoswap_d, amoadd_d, amoxor_d,
  amoand_d, amoor_d, amomin_d, amomax_d, amominu_d, amomaxu_d, flw, fsw, fmadd_s, fmsub_s, fnmadd_s,
  fnmsub_s, fadd_s, fsub_s, fmul_s, fdiv_s, fsqrt_s, fsgnj_s, fsgnjn_s, fsgnjx_s, fmin_s, fmax_s,
  fcvt_w_s, fcvt_wu_s, fmv_x_w, feq_s, flt_s, fle_s, fclass_s, fcvt_s_w, fcvt_s_wu, fmv_w_x,
  fcvt_l_s, fcvt_lu_s, fcvt_s_l, fcvt_s_lu, fld, fsd, fmadd_d, fmsub_d, fnmsub_d, fnmadd_d, fadd_d,
  fsub_d, fmul_d, fdiv_d, fsqrt_d, fsgnj_d, fsgnjn_d, fsgnjx_d, fmin_d, fmax_d, fcvt_s_d, fcvt_d_s,
  feq_d, flt_d, fle_d, fclass_d, fcvt_w_d, fcvt_wu_d, fcvt_d_w, fcvt_d_wu, fcvt_l_d, fcvt_lu_d,
  fmv_x_d, fcvt_d_l, fcvt_d_lu, fmv_d_x, uret, sret, mret, wfi, sfence_vma,
}

-- The constants `*_ENCODING`; the decoder never asks for one of `undef`.
unfoldable pub encoding : Mapping → ℕ
encoding undef = 0
encoding lui = 0x00000037
encoding auipc = 0x00000017
encoding jal = 0x0000006f
encoding jalr = 0x00000067
encoding beq = 0x00000063
encoding bne = 0x00001063
encoding blt = 0x00004063
encoding bge = 0x00005063
encoding bltu = 0x00006063
encoding bgeu = 0x00007063
encoding lb = 0x00000003
encoding lh = 0x00001003
encoding lw = 0x00002003
encoding lbu = 0x00004003
encoding lhu = 0x00005003
encoding sb = 0x00000023
encoding sh = 0x00001023
encoding sw = 0x00002023
encoding addi = 0x00000013
encoding slti = 0x00002013
encoding sltiu = 0x00003013
encoding xori = 0x00004013
encoding ori = 0x00006013
encoding andi = 0x00007013
encoding slli = 0x00001013
encoding srli = 0x00005013
encoding srai = 0x40005013
encoding add = 0x00000033
encoding sub = 0x40000033
encoding sll = 0x00001033
encoding slt = 0x00002033
encoding sltu = 0x00003033
encoding xor = 0x00004033
encoding srl = 0x00005033
encoding sra = 0x40005033
encoding or = 0x00006033
encoding and = 0x00007033
encoding fence = 0x0000000f
encoding ecall = 0x00000073
encoding ebreak = 0x00100073
encoding fence_i = 0x0000100f
encoding csrrw = 0x00001073
encoding csrrs = 0x00002073
encoding csrrc = 0x00003073
encoding csrrwi = 0x00005073
encoding csrrsi = 0x00006073
encoding csrrci = 0x00007073
encoding mul = 0x02000033
encoding mulh = 0x02001033
encoding mulhsu = 0x02002033
encoding mulhu = 0x02003033
encoding div = 0x02004033
encoding divu = 0x02005033
encoding rem = 0x02006033
encoding remu = 0x02007033
encoding lr_w = 0x1000202f
encoding sc_w = 0x1800202f
encoding amoswap_w = 0x0800202f
encoding amoadd_w = 0x0000202f
encoding amoxor_w = 0x2000202f
encoding amoand_w = 0x6000202f
encoding amoor_w = 0x4000202f
encoding amomin_w = 0x8000202f
encoding amomax_w = 0xa000202f
encoding amominu_w = 0xc000202f
encoding amomaxu_w = 0xe000202f
encoding lwu = 0x00006003
encoding ld = 0x00003003
encoding sd = 0x00003023
encoding addiw = 0x0000001b
encoding slliw = 0x0000101b
encoding srliw = 0x0000501b
encoding sraiw = 0x4000501b
encoding addw = 0x0000003b
encoding subw = 0x4000003b
encoding sllw = 0x0000103b
encoding srlw = 0x0000503b
encoding sraw = 0x4000503b
encoding mulw = 0x0200003b
encoding divw = 0x0200403b
encoding divuw = 0x0200503b
encoding remw = 0x0200603b
encoding remuw = 0x0200703b
encoding lr_d = 0x1000302f
encoding sc_d = 0x1800302f
encoding amoswap_d = 0x0800302f
encoding amoadd_d = 0x0000302f
encoding amoxor_d = 0x2000302f
encoding amoand_d = 0x6000302f
encoding amoor_d = 0x4000302f
encoding amomin_d = 0x8000302f
encoding amomax_d = 0xa000302f
encoding amominu_d = 0xc000302f
encoding amomaxu_d = 0xe000302f
encoding flw = 0x00002007
encoding fsw = 0x00002027
encoding fmadd_s = 0x00000043
encoding fmsub_s = 0x00000047
encoding fnmadd_s = 0x0000004f
encoding fnmsub_s = 0x0000004b
encoding fadd_s = 0x00000053
encoding fsub_s = 0x08000053
encoding fmul_s = 0x10000053
encoding fdiv_s = 0x18000053
encoding fsqrt_s = 0x58000053
encoding fsgnj_s = 0x20000053
encoding fsgnjn_s = 0x20001053
encoding fsgnjx_s = 0x20002053
encoding fmin_s = 0x28000053
encoding fmax_s = 0x28001053
encoding fcvt_w_s = 0xc0000053
encoding fcvt_wu_s = 0xc0100053
encoding fmv_x_w = 0xe0000053
encoding feq_s = 0xa0002053
encoding flt_s = 0xa0001053
encoding fle_s = 0xa0000053
encoding fclass_s = 0xe0001053
encoding fcvt_s_w = 0xd0000053
encoding fcvt_s_wu = 0xd0100053
encoding fmv_w_x = 0xf0000053
encoding fcvt_l_s = 0xc0200053
encoding fcvt_lu_s = 0xc0300053
encoding fcvt_s_l = 0xd0200053
encoding fcvt_s_lu = 0xd0300053
encoding fld = 0x00003007
encoding fsd = 0x00003027
encoding fmadd_d = 0x02000043
encoding fmsub_d = 0x02000047
encoding fnmsub_d = 0x0200004b
encoding fnmadd_d = 0x0200004f
encoding fadd_d = 0x02000053
encoding fsub_d = 0x0a000053
encoding fmul_d = 0x12000053
encoding fdiv_d = 0x1a000053
encoding fsqrt_d = 0x5a000053
encoding fsgnj_d = 0x22000053
encoding fsgnjn_d = 0x22001053
encoding fsgnjx_d = 0x22002053
encoding fmin_d = 0x2a000053
encoding fmax_d = 0x2a001053
encoding fcvt_s_d = 0x40100053
encoding fcvt_d_s = 0x42000053
encoding feq_d = 0xa2002053
encoding flt_d = 0xa2001053
encoding fle_d = 0xa2000053
encoding fclass_d = 0xe2001053
encoding fcvt_w_d = 0xc2000053
encoding fcvt_wu_d = 0xc2100053
encoding fcvt_d_w = 0xd2000053
encoding fcvt_d_wu = 0xd2100053
encoding fcvt_l_d = 0xc2200053
encoding fcvt_lu_d = 0xc2300053
encoding fmv_x_d = 0xe2000053
encoding fcvt_d_l = 0xd2200053
encoding fcvt_d_lu = 0xd2300053
encoding fmv_d_x = 0xf2000053
encoding uret = 0x00200073
encoding sret = 0x10200073
encoding mret = 0x30200073
encoding wfi = 0x10500073
encoding sfence_vma = 0x12000073
