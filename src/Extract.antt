-- ===== src/Extract.antt =====
-- extract: the extractors, which turn artifacts into documents of sections.
pub mod Json
pub mod Markdown
