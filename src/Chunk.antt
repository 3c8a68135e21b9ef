-- ===== src/Chunk.antt =====
-- internal/chunk: how a byte stream is cut into pieces, and put together again.
pub mod Policy
pub mod Gear
pub mod Reader
pub mod Splitter
pub mod Assembler
