-- ===== src/Pipeline.antt =====
-- pipeline/: the stages of a run and the engine that drives them.
pub mod Context
pub mod Invariant
pub mod Stages
pub mod Engine
pub mod Idle
pub mod Signature
