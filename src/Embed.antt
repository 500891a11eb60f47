-- ===== src/Embed.antt =====
-- embed/: embedders, and the cache of vectors.
pub mod Cache
