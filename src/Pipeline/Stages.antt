-- ===== src/Pipeline/Stages.antt =====
-- pipeline/stages.py: the six stages of a run.
pub mod Fetch
pub mod Extract
pub mod Write
