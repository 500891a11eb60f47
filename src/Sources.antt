-- ===== src/Sources.antt =====
-- sources/: what brings documents in.
pub mod Provider
pub mod Http
