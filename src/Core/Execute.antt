-- ===== src/Core/Execute.antt =====
-- The instructions that `ISS::exec_step` of vp/src/core/rv32/iss.cpp executes.
pub mod Integer
pub mod Jump
pub mod Transfer
pub mod System
pub mod Multiply
pub mod Atomic
