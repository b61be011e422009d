-- ===== src/Instr/DecodeLaws.antt =====
-- Properties of the decoder of uncompressed words.
pub mod Table
pub mod Complete
