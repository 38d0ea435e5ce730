-- ===== src/Synthesis.antt =====
-- The synthesis parser, urpm/core/synthesis.py. The file is read and decompressed already.
pub mod Names
pub mod Lines
pub mod Blocks
mod Tests
