-- ===== src/Iss.antt =====
-- The RV32 instruction set simulator of vp/src/core/rv32/iss.h and iss.cpp.
pub mod Hart
pub mod Action
pub mod Keeps
pub mod Trap
pub mod Return
pub mod Pending
pub mod Priority
pub mod Interrupt
pub mod Exception
pub mod Rights
pub mod Read
pub mod Write
pub mod Invariant
pub mod Steps
pub mod Reach
pub mod Isolated
pub mod Isolation
mod Examples
