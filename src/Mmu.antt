-- ===== src/Mmu.antt =====
-- The memory management unit of vp/src/core/common/mmu.h.
pub mod Walk
pub mod Entry
pub mod Architecture
pub mod Sv32
pub mod Translation
pub mod Keeps
mod Examples
