-- ===== src/Instr.antt =====
-- Instruction words: fields, decoding and the compressed instructions.
pub mod Fields
pub mod FieldLaws
pub mod Mapping
pub mod Mask
pub mod Encoding
pub mod Match
pub mod Format
pub mod Decode
pub mod DecodeLaws
pub mod Compressed
mod Examples
