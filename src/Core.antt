-- ===== src/Core.antt =====
-- The hart as a whole: `struct ISS` of vp/src/core/rv32/iss.h with its registers and its memory
-- interface.
pub mod Clover
pub mod State
pub mod Interface
pub mod RegFile
pub mod Registers
pub mod Operands
pub mod Execute
pub mod Preserve
pub mod Step
pub mod Memory
pub mod Errors
pub mod Semantics
pub mod Concrete
pub mod Isa
pub mod Refines
pub mod Writes
pub mod Products
pub mod ExtensionM
pub mod Branches
pub mod Counters
pub mod Debug
mod Examples
