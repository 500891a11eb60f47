-- ===== src/Pipeline/Engine.antt =====
-- pipeline/engine.py: the stages in their order, and the ledger entry of every outcome.
pub mod Commit
pub mod Idle
pub mod Incremental
pub mod Held
use alvis.Base.{String, ◌<>◌, ℕ, Bool, true, false, ◌&&◌, Option, none, some, List, [], ◌∷◌}
use alvis.Base.{is_some, if◌then◌else◌}
use alvis.Errors.{Error, pipeline_error, source_error, config_error, value_error, other_error}
use alvis.Errors.{Result, ok, err, Exec, ◌>>◌}
use alvis.DocStore.{DocStore, RunRecord, record_run}
use alvis.Pipeline.Context.{Adapters, RunContext, new_context}
use alvis.Pipeline.Stages.Fetch.{fetch_stage}
use alvis.Pipeline.Stages.Extract.{extract_stage}
use alvis.Pipeline.Stages.Write.{
  has_pending, embed_stage, upsert_stage, reconcile_stage, commit_stage,
}

pub record PipelineResult : Type 0 where
  pub documents_ingested : ℕ
  pub chunks_indexed : ℕ
  pub embed_cache_hits : ℕ
  pub embed_cache_misses : ℕ
  pub documents_changed : ℕ
  pub documents_skipped : ℕ
  pub documents_deleted : ℕ

pub data Stage : Type 0 where
  fetch extract embed upsert reconcile commit : Stage

-- `STAGES`
abbrev pub stages : List Stage
stages = fetch ∷ extract ∷ embed ∷ upsert ∷ reconcile ∷ commit ∷ []

-- `str(exc)`
unfoldable pub message : Error → String
message (pipeline_error m) = m
message (source_error m) = m
message (config_error m) = m
message (value_error m) = m
message (other_error m) = m

-- `"\n".join(f"  {p}" for p in problems)`
join_problems : List String → String
join_problems [] = ""
join_problems (p ∷ []) = "  " <> p
join_problems (p ∷ q ∷ problems) = "  " <> p <> "\n" <> join_problems (q ∷ problems)

module _ {V I : Type 0} (a : Adapters V I) where
  unfoldable pub applicable : Stage → RunContext V I → Bool
  unfolding has_pending
  applicable fetch ctx = true
  applicable extract ctx = true
  applicable embed ctx = has_pending a ctx
  applicable upsert ctx = has_pending a ctx
  applicable reconcile ctx = is_some ctx.indexer
  applicable commit ctx = is_some ctx.docstore && is_some a.signature

  unfoldable pub run_stage : Stage → Exec (RunContext V I) (Unit {0})
  unfolding fetch_stage extract_stage embed_stage upsert_stage reconcile_stage commit_stage
  run_stage fetch = fetch_stage a
  run_stage extract = extract_stage a
  run_stage embed = embed_stage a
  run_stage upsert = upsert_stage a
  run_stage reconcile = reconcile_stage a
  run_stage commit = commit_stage a

  step : Stage → Exec (RunContext V I) (Unit {0})
  unfolding applicable run_stage
  step s ctx = if applicable s ctx then run_stage s ctx else (ok tt, ctx)

  -- The loop over the stages ends with the first that raises.
  pub run_stages : List Stage → Exec (RunContext V I) (Unit {0})
  unfolding step
  run_stages [] ctx = (ok tt, ctx)
  run_stages (s ∷ rest) ctx = (step s >> run_stages rest) ctx

  result_of : RunContext V I → PipelineResult
  result_of ctx = record {
    documents_ingested = ctx.documents;
    chunks_indexed = ctx.indexed;
    embed_cache_hits = ctx.embed_cache_hits;
    embed_cache_misses = ctx.embed_cache_misses;
    documents_changed = ctx.changed;
    documents_skipped = ctx.skipped;
    documents_deleted = ctx.deleted;
  }

  finished : Result (Unit {0}) → RunContext V I → Result PipelineResult × RunContext V I
  unfolding result_of
  finished (ok u) ctx = (ok (result_of ctx), ctx)
  finished (err e) ctx = (err e, ctx)

  -- `_execute`: the problems are those of the configuration's types, found before anything is built.
  unfoldable pub execute :
      List String → Option DocStore → Option I → Result PipelineResult × RunContext V I
  unfolding run_stages finished join_problems
  execute (p ∷ problems) docstore indexer =
      (err (config_error (join_problems (p ∷ problems))), new_context docstore indexer)
  execute [] docstore indexer =
      let (r, ctx) = run_stages stages (new_context docstore indexer) in finished r ctx

  -- The ledger record of an outcome, at a time and after a duration.
  unfoldable pub record_of : String → ℕ → Result PipelineResult → RunRecord
  unfolding message
  record_of at duration (err e) = record {
    at = at;
    ok = false;
    error = message e;
    duration = duration;
    documents = 0;
    chunks = 0;
    changed = 0;
    skipped = 0;
    deleted = 0;
    embed_cache_hits = 0;
    embed_cache_misses = 0;
  }
  record_of at duration (ok result) = record {
    at = at;
    ok = true;
    error = "";
    duration = duration;
    documents = result.documents_ingested;
    chunks = result.chunks_indexed;
    changed = result.documents_changed;
    skipped = result.documents_skipped;
    deleted = result.documents_deleted;
    embed_cache_hits = result.embed_cache_hits;
    embed_cache_misses = result.embed_cache_misses;
  }

  pub note_run : RunRecord → Option DocStore → Option String → Option DocStore
  unfolding record_run
  note_run r (some docstore) (some signature) = some (record_run a.source_id r docstore)
  note_run r docstore signature = docstore

  -- `run`: the result or the error, and the store and the index as they are left.
  unfoldable pub run :
      String
      → ℕ
      → List String
      → Option DocStore
      → Option I
      → Result PipelineResult × Option DocStore × Option I
  unfolding execute record_of note_run
  run at duration problems docstore indexer =
      let (r, ctx) = execute problems docstore indexer in
      (r, note_run (record_of at duration r) ctx.docstore a.signature, ctx.indexer)
