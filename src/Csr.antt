-- ===== src/Csr.antt =====
-- The control and status registers of vp/src/core/rv32/csr.h.
pub mod Machine
pub mod Lower
pub mod Masks
pub mod Register
pub mod Fields
