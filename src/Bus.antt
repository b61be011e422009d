-- ===== src/Bus.antt =====
-- The bus of vp/src/platform/common/bus.h.
pub mod Lock
pub mod Port
pub mod Routing
pub mod Exclusion
mod Examples
