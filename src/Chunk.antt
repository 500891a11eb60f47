-- ===== src/Chunk.antt =====
-- chunk/: the strategies that cut a document into chunks.
pub mod Auto
pub mod Size
pub mod Sections
