-- ===== src/Index.antt =====
-- index/: the vector stores and the rankings over them.
pub mod Acl
pub mod Math
pub mod Filters
pub mod Keyword
pub mod Memory
pub mod Sqlite
pub mod Fusion
