-- ===== src/Instr/Mapping.antt =====
-- The instructions that the decoder tells apart: `enum Mapping` of vp/src/core/common/instr.h, in
-- its order.

pub data Mapping : Type 0 where
  undef lui auipc jal jalr beq bne blt bge bltu bgeu lb lh lw lbu lhu sb sh sw addi : Mapping
  slti sltiu xori ori andi slli srli srai add sub sll slt sltu xor srl sra or and : Mapping
  fence ecall ebreak fence_i csrrw csrrs csrrc csrrwi csrrsi csrrci mul mulh mulhsu : Mapping
  mulhu div divu rem remu lr_w sc_w amoswap_w amoadd_w amoxor_w amoand_w amoor_w : Mapping
  amomin_w amomax_w amominu_w amomaxu_w lwu ld sd addiw slliw srliw sraiw addw subw : Mapping
  sllw srlw sraw mulw divw divuw remw remuw lr_d sc_d amoswap_d amoadd_d amoxor_d : Mapping
  amoand_d amoor_d amomin_d amomax_d amominu_d amomaxu_d flw fsw fmadd_s fmsub_s : Mapping
  fnmadd_s fnmsub_s fadd_s fsub_s fmul_s fdiv_s fsqrt_s fsgnj_s fsgnjn_s fsgnjx_s : Mapping
  fmin_s fmax_s fcvt_w_s fcvt_wu_s fmv_x_w feq_s flt_s fle_s fclass_s fcvt_s_w : Mapping
  fcvt_s_wu fmv_w_x fcvt_l_s fcvt_lu_s fcvt_s_l fcvt_s_lu fld fsd fmadd_d fmsub_d : Mapping
  fnmsub_d fnmadd_d fadd_d fsub_d fmul_d fdiv_d fsqrt_d fsgnj_d fsgnjn_d fsgnjx_d : Mapping
  fmin_d fmax_d fcvt_s_d fcvt_d_s feq_d flt_d fle_d fclass_d fcvt_w_d fcvt_wu_d : Mapping
  fcvt_d_w fcvt_d_wu fcvt_l_d fcvt_lu_d fmv_x_d fcvt_d_l fcvt_d_lu fmv_d_x uret sret : Mapping
  mret wfi sfence_vma : Mapping

unfoldable pub Mapping-discrete : Discrete Mapping
Mapping-discrete = hlevel
