-- ===== src/Slip.antt =====
-- The SLIP interface of vp/src/platform/common/slip.cpp.
pub mod Codec
pub mod RoundTrip
mod Examples
