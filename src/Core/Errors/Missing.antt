-- ===== src/Core/Errors/Missing.antt =====
-- Instructions of vp/src/core/rv32/iss.cpp whose extension is not in `misa`.
use symex_vp.Common.{ℕ}
use symex_vp.Instr.Mapping.{
  Mapping, lr_w, sc_w, amoswap_w, amoadd_w, amoxor_w, amoand_w, amoor_w, amomin_w, amominu_w,
  amomax_w, amomaxu_w, mul, mulh, mulhu, mulhsu, div, divu, rem, remu,
}
use symex_vp.Core.Clover.{Clover}
use symex_vp.Core.State.{State}
use symex_vp.Core.Operands.{m_extension, a_extension}

-- The instructions of the extensions A and M.
pub data InExtension : Mapping → ℕ → Type 0 where
  reserving : InExtension lr_w a_extension
  conditional : InExtension sc_w a_extension
  swap : InExtension amoswap_w a_extension
  sum : InExtension amoadd_w a_extension
  difference : InExtension amoxor_w a_extension
  conjunction : InExtension amoand_w a_extension
  disjunction : InExtension amoor_w a_extension
  least : InExtension amomin_w a_extension
  unsigned_least : InExtension amominu_w a_extension
  greatest : InExtension amomax_w a_extension
  unsigned_greatest : InExtension amomaxu_w a_extension
  low : InExtension mul m_extension
  high : InExtension mulh m_extension
  unsigned_high : InExtension mulhu m_extension
  mixed_high : InExtension mulhsu m_extension
  quotient : InExtension div m_extension
  unsigned_quotient : InExtension divu m_extension
  remainder : InExtension rem m_extension
  unsigned_remainder : InExtension remu m_extension
