-- ===== src/Instr/Format.antt =====
-- The instruction formats: `Opcode::getType` of vp/src/core/common/instr.cpp and `enum class Type`
-- of instr.h.
use symex_vp.Instr.Mapping.{
  Mapping, lui, auipc, jal, jalr, beq, bne, blt, bge, bltu, bgeu, lb, lh, lw, lbu, lhu, sb, sh, sw,
  addi, slti, sltiu, xori, ori, andi, slli, srli, srai, add, sub, sll, slt, sltu, xor, srl, sra, or,
  and, mul, mulh, mulhsu, mulhu, div, divu, rem, remu, lr_w, sc_w, amoswap_w, amoadd_w, amoxor_w,
  amoand_w, amoor_w, amomin_w, amomax_w, amominu_w, amomaxu_w, lwu, ld, sd, addiw, slliw, srliw,
  sraiw, addw, subw, sllw, srlw, sraw, mulw, divw, divuw, remw, remuw, lr_d, sc_d, amoswap_d,
  amoadd_d, amoxor_d, amoand_d, amoor_d, amomin_d, amomax_d, amominu_d, amomaxu_d, flw, fsw,
  fmadd_s, fmsub_s, fnmadd_s, fnmsub_s, fadd_s, fsub_s, fmul_s, fdiv_s, fsqrt_s, fsgnj_s, fsgnjn_s,
  fsgnjx_s, fmin_s, fmax_s, fcvt_w_s, fcvt_wu_s, fmv_x_w, feq_s, flt_s, fle_s, fclass_s, fcvt_s_w,
  fcvt_s_wu, fmv_w_x, fcvt_l_s, fcvt_lu_s, fcvt_s_l, fcvt_s_lu, fld, fsd, fmadd_d, fmsub_d,
  fnmsub_d, fnmadd_d, fadd_d, fsub_d, fmul_d, fdiv_d, fsqrt_d, fsgnj_d, fsgnjn_d, fsgnjx_d, fmin_d,
  fmax_d, fcvt_s_d, fcvt_d_s, feq_d, flt_d, fle_d, fclass_d, fcvt_w_d, fcvt_wu_d, fcvt_d_w,
  fcvt_d_wu, fcvt_l_d, fcvt_lu_d, fmv_x_d, fcvt_d_l, fcvt_d_lu, fmv_d_x,
}

pub data Format : Type 0 where
  unknown r_type i_type s_type b_type u_type j_type r4_type : Format

-- `getType`. The last clause is `default`.
unfoldable pub get_type : Mapping → Format
get_type lui = u_type
get_type auipc = u_type
get_type jal = j_type
get_type jalr = i_type
get_type beq = b_type
get_type bne = b_type
get_type blt = b_type
get_type bge = b_type
get_type bltu = b_type
get_type bgeu = b_type
get_type lb = i_type
get_type lh = i_type
get_type lw = i_type
get_type lbu = i_type
get_type lhu = i_type
get_type sb = s_type
get_type sh = s_type
get_type sw = s_type
get_type addi = i_type
get_type slti = i_type
get_type sltiu = i_type
get_type xori = i_type
get_type ori = i_type
get_type andi = i_type
get_type slli = r_type
get_type srli = r_type
get_type srai = r_type
get_type add = r_type
get_type sub = r_type
get_type sll = r_type
get_type slt = r_type
get_type sltu = r_type
get_type xor = r_type
get_type srl = r_type
get_type sra = r_type
get_type or = r_type
get_type and = r_type
get_type mul = r_type
get_type mulh = r_type
get_type mulhsu = r_type
get_type mulhu = r_type
get_type div = r_type
get_type divu = r_type
get_type rem = r_type
get_type remu = r_type
get_type lr_w = r_type
get_type sc_w = r_type
get_type amoswap_w = r_type
get_type amoadd_w = r_type
get_type amoxor_w = r_type
get_type amoand_w = r_type
get_type amoor_w = r_type
get_type amomin_w = r_type
get_type amomax_w = r_type
get_type amominu_w = r_type
get_type amomaxu_w = r_type
get_type lwu = i_type
get_type ld = i_type
get_type sd = s_type
get_type addiw = i_type
get_type slliw = i_type
get_type srliw = i_type
get_type sraiw = i_type
get_type addw = r_type
get_type subw = r_type
get_type sllw = r_type
get_type srlw = r_type
get_type sraw = r_type
get_type mulw = r_type
get_type divw = r_type
get_type divuw = r_type
get_type remw = r_type
get_type remuw = r_type
get_type lr_d = r_type
get_type sc_d = r_type
get_type amoswap_d = r_type
get_type amoadd_d = r_type
get_type amoxor_d = r_type
get_type amoand_d = r_type
get_type amoor_d = r_type
get_type amomin_d = r_type
get_type amomax_d = r_type
get_type amominu_d = r_type
get_type amomaxu_d = r_type
get_type flw = i_type
get_type fsw = s_type
get_type fmadd_s = r4_type
get_type fmsub_s = r4_type
get_type fnmadd_s = r4_type
get_type fnmsub_s = r4_type
get_type fadd_s = r_type
get_type fsub_s = r_type
get_type fmul_s = r_type
get_type fdiv_s = r_type
get_type fsqrt_s = r_type
get_type fsgnj_s = r_type
get_type fsgnjn_s = r_type
get_type fsgnjx_s = r_type
get_type fmin_s = r_type
get_type fmax_s = r_type
get_type fcvt_w_s = r_type
get_type fcvt_wu_s = r_type
get_type fmv_x_w = r_type
get_type feq_s = r_type
get_type flt_s = r_type
get_type fle_s = r_type
get_type fclass_s = r_type
get_type fcvt_s_w = r_type
get_type fcvt_s_wu = r_type
get_type fmv_w_x = r_type
get_type fcvt_l_s = r_type
get_type fcvt_lu_s = r_type
get_type fcvt_s_l = r_type
get_type fcvt_s_lu = r_type
get_type fld = i_type
get_type fsd = s_type
get_type fmadd_d = r4_type
get_type fmsub_d = r4_type
get_type fnmsub_d = r4_type
get_type fnmadd_d = r4_type
get_type fadd_d = r_type
get_type fsub_d = r_type
get_type fmul_d = r_type
get_type fdiv_d = r_type
get_type fsqrt_d = r_type
get_type fsgnj_d = r_type
get_type fsgnjn_d = r_type
get_type fsgnjx_d = r_type
get_type fmin_d = r_type
get_type fmax_d = r_type
get_type fcvt_s_d = r_type
get_type fcvt_d_s = r_type
get_type feq_d = r_type
get_type flt_d = r_type
get_type fle_d = r_type
get_type fclass_d = r_type
get_type fcvt_w_d = r_type
get_type fcvt_wu_d = r_type
get_type fcvt_d_w = r_type
get_type fcvt_d_wu = r_type
get_type fcvt_l_d = r_type
get_type fcvt_lu_d = r_type
get_type fmv_x_d = r_type
get_type fcvt_d_l = r_type
get_type fcvt_d_lu = r_type
get_type fmv_d_x = r_type
get_type _ = unknown
