-- ===== src/Plic.antt =====
-- The interrupt controller of vp/src/platform/common/fe310_plic.h.
pub mod Controller
pub mod Next
pub mod Claim
mod Examples
