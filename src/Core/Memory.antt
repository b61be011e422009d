-- ===== src/Core/Memory.antt =====
-- The memory interface of a hart, vp/src/core/rv32/mem.h, with the translation of
-- vp/src/core/common/mmu.h.
pub mod Transaction
pub mod Translate
pub mod Access
pub mod Preserve
pub mod Implements
pub mod Exclusive
pub mod Marking
pub mod Again
