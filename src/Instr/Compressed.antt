-- ===== src/Instr/Compressed.antt =====
-- The compressed instructions of vp/src/core/common/instr.cpp.
pub mod Immediates
pub mod Factory
pub mod Decode
pub mod Expand
pub mod Listing
pub mod Spec
pub mod Low
mod Table
pub mod Sound
