-- ===== src/Tests.antt =====
-- Runs on concrete data, and the theorems at inputs that meet their hypotheses.
pub mod Fixtures
mod DocStoreRuns
mod IndexRuns
mod EmbedRuns
mod PipelineRuns
mod ChunkRuns
mod QueryRuns
mod SourceRuns
mod PluginRuns
mod EvaluationRuns
mod ExtractRuns
mod WatchRuns
mod SqliteRuns
mod ConfigRuns
mod DslRuns
mod EnvironmentRuns
mod MetricRuns
mod SignatureRuns
