-- ===== src/Fec.antt =====
-- crates/wzp-fec: the books kept of the blocks of the error correction, the symbols of a block, and the
-- interleaver.
pub mod EncoderBlocks
pub mod DecoderBlocks
pub mod Coding
pub mod Interleave
mod Tests
