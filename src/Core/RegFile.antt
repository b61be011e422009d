-- ===== src/Core/RegFile.antt =====
-- `struct RegFile` of vp/src/core/rv32/iss.cpp.
use symex_vp.Common.{
  ℕ, ◌==◌, ltb, leb, if◌then◌else◌, List, get_or, set, replicate, Option, none, some,
}
use symex_vp.Core.Clover.{Clover}

abbrev pub num_regs : ℕ
num_regs = 32

module _ (k : Clover) where
  -- The constructor.
  unfoldable pub zeros : List k.Value
  zeros = replicate num_regs (k.bvc 0)

  -- `regs[index]`; the array has no element from 32 on.
  unfoldable pub element : List k.Value → ℕ → k.Value
  element regs index = get_or regs index (k.bvc 0)

  -- `none` when the assertion fails. A value of more than 32 bits is dropped: the assertion on the
  -- width is on a string, which is always true.
  unfoldable pub write : ℕ → k.Value → List k.Value → Option (List k.Value)
  write index value regs =
      if leb index 31
      then some (
          if ltb (k.get_width value) 32
          then set regs index (k.zext 32 value)
          else if k.get_width value == 32
          then set regs index value
          else regs)
      else none

  -- `none` for `std::out_of_range`.
  unfoldable pub read : ℕ → List k.Value → Option k.Value
  unfolding element
  read index regs = if ltb 31 index then none else some (element regs index)

  unfoldable pub shamt : ℕ → List k.Value → k.Value
  unfolding element
  shamt index regs = k.zext 32 (k.extract 0 5 (element regs index))
