-- ===== src/Instr/Match.antt =====
-- How the decoder matches: `MATCH_AND_RETURN_INSTR` of vp/src/core/common/instr.cpp, a `switch` over
-- numbers, and the architectures of vp/src/core/common/core_defs.h.
use symex_vp.Common.{ℕ, Bool, true, false, bit_and, ◌!=◌, if◌then◌else◌}
use symex_vp.Instr.Mapping.{Mapping, undef}
use symex_vp.Instr.Mask.{mask}
use symex_vp.Instr.Encoding.{encoding}

pub data Architecture : Type 0 where
  rv32 rv64 rv128 : Architecture

-- `arch == RV32`.
abbrev pub is_rv32 : Architecture → Bool
is_rv32 rv32 = true
is_rv32 _ = false

abbrev pub slli_32_mask : ℕ
slli_32_mask = 0xfe00707f

abbrev pub slli_32_encoding : ℕ
slli_32_encoding = 0x00001013

abbrev pub srli_32_mask : ℕ
srli_32_mask = 0xfe00707f

abbrev pub srli_32_encoding : ℕ
srli_32_encoding = 0x00005013

abbrev pub srai_32_mask : ℕ
srai_32_mask = 0xfe00707f

abbrev pub srai_32_encoding : ℕ
srai_32_encoding = 0x40005013

unfoldable pub match_and_return_instr2 : ℕ → ℕ → ℕ → Mapping → Mapping
match_and_return_instr2 i instr_mask instr_encoding result =
    if bit_and i instr_mask != instr_encoding then undef else result

unfoldable pub match_and_return_instr : ℕ → Mapping → Mapping
match_and_return_instr i instr = match_and_return_instr2 i (mask instr) (encoding instr) instr
