-- ===== src/Instr/Mask.antt =====
-- The constants `*_MASK` of vp/src/core/common/instr.cpp, one for each instruction.
use symex_vp.Common.{ℕ}
use symex_vp.Instr.Mapping.{
  Mapping, undef, lui, auipc, jal, jalr, beq, bne, blt, bge, bltu, bgeu, lb, lh, lw, lbu, lhu, sb,
  sh, sw, addi, slti, sltiu, xori, ori, andi, slli, srli, srai, add, sub, sll, slt, sltu, xor, srl,
  sra, or, and, fence, ecall, ebreak, fence_i, csrrw, csrrs, csrrc, csrrwi, csrrsi, csrrci, mul,
  mulh, mulhsu, mulhu, div, divu, rem, remu, lr_w, sc_w, amoswap_w, amoadd_w, amoxor_w, amoand_w,
  amoor_w, amomin_w, amomax_w, amominu_w, amomaxu_w, lwu, ld, sd, addiw, slliw, srliw, sraiw, addw,
  subw, sllw, srlw, sraw, mulw, divw, divuw, remw, remuw, lr_d, sc_d, amoswap_d, amoadd_d, amoxor_d,
  amoand_d, amoor_d, amomin_d, amomax_d, amominu_d, amomaxu_d, flw, fsw, fmadd_s, fmsub_s, fnmadd_s,
  fnmsub_s, fadd_s, fsub_s, fmul_s, fdiv_s, fsqrt_s, fsgnj_s, fsgnjn_s, fsgnjx_s, fmin_s, fmax_s,
  fcvt_w_s, fcvt_wu_s, fmv_x_w, feq_s, flt_s, fle_s, fclass_s, fcvt_s_w, fcvt_s_wu, fmv_w_x,
  fcvt_l_s, fcvt_lu_s, fcvt_s_l, fcvt_s_lu, fld, fsd, fmadd_d, fmsub_d, fnmsub_d, fnmadd_d, fadd_d,
  fsub_d, fmul_d, fdiv_d, fsqrt_d, fsgnj_d, fsgnjn_d, fsgnjx_d, fmin_d, fmax_d, fcvt_s_d, fcvt_d_s,
  feq_d, flt_d, fle_d, fclass_d, fcvt_w_d, fcvt_wu_d, fcvt_d_w, fcvt_d_wu, fcvt_l_d, fcvt_lu_d,
  fmv_x_d, fcvt_d_l, fcvt_d_lu, fmv_d_x, uret, sret, mret, wfi, sfence_vma,
}

-- The constants `*_MASK`; the decoder never asks for one of `undef`.
unfoldable pub mask : Mapping → ℕ
mask undef = 0
mask lui = 0x0000007f
mask auipc = 0x0000007f
mask jal = 0x0000007f
mask jalr = 0x0000707f
mask beq = 0x0000707f
mask bne = 0x0000707f
mask blt = 0x0000707f
mask bge = 0x0000707f
mask bltu = 0x0000707f
mask bgeu = 0x0000707f
mask lb = 0x0000707f
mask lh = 0x0000707f
mask lw = 0x0000707f
mask lbu = 0x0000707f
mask lhu = 0x0000707f
mask sb = 0x0000707f
mask sh = 0x0000707f
mask sw = 0x0000707f
mask addi = 0x0000707f
mask slti = 0x0000707f
mask sltiu = 0x0000707f
mask xori = 0x0000707f
mask ori = 0x0000707f
mask andi = 0x0000707f
mask slli = 0xfc00707f
mask srli = 0xfc00707f
mask srai = 0xfc00707f
mask add = 0xfe00707f
mask sub = 0xfe00707f
mask sll = 0xfe00707f
mask slt = 0xfe00707f
mask sltu = 0xfe00707f
mask xor = 0xfe00707f
mask srl = 0xfe00707f
mask sra = 0xfe00707f
mask or = 0xfe00707f
mask and = 0xfe00707f
mask fence = 0x0000707f
mask ecall = 0xffffffff
mask ebreak = 0xffffffff
mask fence_i = 0x0000707f
mask csrrw = 0x0000707f
mask csrrs = 0x0000707f
mask csrrc = 0x0000707f
mask csrrwi = 0x0000707f
mask csrrsi = 0x0000707f
mask csrrci = 0x0000707f
mask mul = 0xfe00707f
mask mulh = 0xfe00707f
mask mulhsu = 0xfe00707f
mask mulhu = 0xfe00707f
mask div = 0xfe00707f
mask divu = 0xfe00707f
mask rem = 0xfe00707f
mask remu = 0xfe00707f
mask lr_w = 0xf9f0707f
mask sc_w = 0xf800707f
mask amoswap_w = 0xf800707f
mask amoadd_w = 0xf800707f
mask amoxor_w = 0xf800707f
mask amoand_w = 0xf800707f
mask amoor_w = 0xf800707f
mask amomin_w = 0xf800707f
mask amomax_w = 0xf800707f
mask amominu_w = 0xf800707f
mask amomaxu_w = 0xf800707f
mask lwu = 0x0000707f
mask ld = 0x0000707f
mask sd = 0x0000707f
mask addiw = 0x0000707f
mask slliw = 0xfe00707f
mask srliw = 0xfe00707f
mask sraiw = 0xfe00707f
mask addw = 0xfe00707f
mask subw = 0xfe00707f
mask sllw = 0xfe00707f
mask srlw = 0xfe00707f
mask sraw = 0xfe00707f
mask mulw = 0xfe00707f
mask divw = 0xfe00707f
mask divuw = 0xfe00707f
mask remw = 0xfe00707f
mask remuw = 0xfe00707f
mask lr_d = 0xf9f0707f
mask sc_d = 0xf800707f
mask amoswap_d = 0xf800707f
mask amoadd_d = 0xf800707f
mask amoxor_d = 0xf800707f
mask amoand_d = 0xf800707f
mask amoor_d = 0xf800707f
mask amomin_d = 0xf800707f
mask amomax_d = 0xf800707f
mask amominu_d = 0xf800707f
mask amomaxu_d = 0xf800707f
mask flw = 0x0000707f
mask fsw = 0x0000707f
mask fmadd_s = 0x0600007f
mask fmsub_s = 0x0600007f
mask fnmadd_s = 0x0600007f
mask fnmsub_s = 0x0600007f
mask fadd_s = 0xfe00007f
mask fsub_s = 0xfe00007f
mask fmul_s = 0xfe00007f
mask fdiv_s = 0xfe00007f
mask fsqrt_s = 0xfff0007f
mask fsgnj_s = 0xfe00707f
mask fsgnjn_s = 0xfe00707f
mask fsgnjx_s = 0xfe00707f
mask fmin_s = 0xfe00707f
mask fmax_s = 0xfe00707f
mask fcvt_w_s = 0xfff0007f
mask fcvt_wu_s = 0xfff0007f
mask fmv_x_w = 0xfff0707f
mask feq_s = 0xfe00707f
mask flt_s = 0xfe00707f
mask fle_s = 0xfe00707f
mask fclass_s = 0xfff0707f
mask fcvt_s_w = 0xfff0007f
mask fcvt_s_wu = 0xfff0007f
mask fmv_w_x = 0xfff0707f
mask fcvt_l_s = 0xfff0007f
mask fcvt_lu_s = 0xfff0007f
mask fcvt_s_l = 0xfff0007f
mask fcvt_s_lu = 0xfff0007f
mask fld = 0x0000707f
mask fsd = 0x0000707f
mask fmadd_d = 0x0600007f
mask fmsub_d = 0x0600007f
mask fnmsub_d = 0x0600007f
mask fnmadd_d = 0x0600007f
mask fadd_d = 0xfe00007f
mask fsub_d = 0xfe00007f
mask fmul_d = 0xfe00007f
mask fdiv_d = 0xfe00007f
mask fsqrt_d = 0xfff0007f
mask fsgnj_d = 0xfe00707f
mask fsgnjn_d = 0xfe00707f
mask fsgnjx_d = 0xfe00707f
mask fmin_d = 0xfe00707f
mask fmax_d = 0xfe00707f
mask fcvt_s_d = 0xfff0007f
mask fcvt_d_s = 0xfff0007f
mask feq_d = 0xfe00707f
mask flt_d = 0xfe00707f
mask fle_d = 0xfe00707f
mask fclass_d = 0xfff0707f
mask fcvt_w_d = 0xfff0007f
mask fcvt_wu_d = 0xfff0007f
mask fcvt_d_w = 0xfff0007f
mask fcvt_d_wu = 0xfff0007f
mask fcvt_l_d = 0xfff0007f
mask fcvt_lu_d = 0xfff0007f
mask fmv_x_d = 0xfff0707f
mask fcvt_d_l = 0xfff0007f
mask fcvt_d_lu = 0xfff0007f
mask fmv_d_x = 0xfff0707f
mask uret = 0xffffffff
mask sret = 0xffffffff
mask mret = 0xffffffff
mask wfi = 0xffffffff
mask sfence_vma = 0xfe007fff
