-- ===== src/Pipeline/Stages/Write.antt =====
-- `EmbedStage`, `UpsertStage`, `ReconcileStage` and `CommitStage`, with their guards.
pub mod Invariant
pub mod Idle
pub mod Entries
use alvis.Base.{String, ◌<>◌, ℕ, Bool, true, false, ◌&&◌, Option, none, some, List, [], ◌∷◌, map}
use alvis.Base.{is_some, if◌then◌else◌}
use alvis.Base.Dict.{Dict}
use alvis.Models.{Chunk}
use alvis.Errors.{
  Error, pipeline_error, source_error, value_error, other_error, Result, ok, err, Exec, ◌>>◌,
}
use alvis.DocStore.{DocStore, commit, save}
use alvis.Pipeline.Context.{Adapters, RunContext}

embed_failure : Error → Error
embed_failure (source_error message) = pipeline_error ("embedding failed: " <> message)
embed_failure (value_error message) = pipeline_error ("embedding failed: " <> message)
embed_failure e = e

is_empty : {A : Type 0} → List A → Bool
is_empty [] = true
is_empty (x ∷ xs) = false

-- The items to write, with `strict=True`: a vector for each pending chunk and no more.
zip_items : {V : Type 0} → List (Chunk × String) → List V → Result (List (Chunk × V × String))
zip_items [] [] = ok []
zip_items ((c, h) ∷ pending) (v ∷ vectors) = elim (zip_items pending vectors) [
  | ok items ↦ ok ((c, v, h) ∷ items)
  | err e ↦ err e
]
zip_items _ _ = err (value_error "zip() arguments have different lengths")

module _ {V I : Type 0} (a : Adapters V I) where
  -- The guard of the embed and the upsert stage.
  unfoldable pub has_pending : RunContext V I → Bool
  unfolding is_empty
  has_pending ctx = is_some ctx.indexer && (if is_empty ctx.pending then false else true)

  embedded : Result (List V) → RunContext V I → Result (Unit {0}) × RunContext V I
  unfolding embed_failure
  embedded (ok vectors) ctx = (ok tt, record ctx { vectors = vectors })
  embedded (err e) ctx = (err (embed_failure e), ctx)

  unfoldable pub embed_stage : Exec (RunContext V I) (Unit {0})
  unfolding embedded
  embed_stage ctx =
      let (r, hits, misses) = a.embed_batch (map (λ (c, h). c) ctx.pending) in
      embedded r (record ctx { embed_cache_hits = hits; embed_cache_misses = misses })

  -- The loop over the items; an upsert that raises ends it.
  upsert_each : List (Chunk × V × String) → Exec I (Unit {0})
  upsert_each [] i = (ok tt, i)
  upsert_each ((c, v, h) ∷ items) i = (a.upsert c v a.source_id h >> upsert_each items) i

  unfoldable pub upsert_items : List (Chunk × V × String) → Exec I (Unit {0})
  unfolding upsert_each
  upsert_items items i = elim a.upsert_batch [
    | none ↦ upsert_each items i
    | some batch ↦ batch items a.source_id i
  ]

  -- An action of the index, within the context; without one the stage's assertion fails.
  on_index :
      (I → Result (Unit {0}) × I) → Option I → RunContext V I → Result (Unit {0}) × RunContext V I
  on_index act none ctx = (err (other_error "stage ran without an indexer"), ctx)
  on_index act (some i) ctx = let (r, i') = act i in (r, record ctx { indexer = some i' })

  upsert_zipped :
      RunContext V I → Result (List (Chunk × V × String)) → Result (Unit {0}) × RunContext V I
  unfolding upsert_items on_index
  upsert_zipped ctx (err e) = (err e, ctx)
  upsert_zipped ctx (ok items) = on_index (upsert_items items) ctx.indexer ctx

  unfoldable pub upsert_stage : Exec (RunContext V I) (Unit {0})
  unfolding upsert_zipped zip_items
  upsert_stage ctx = upsert_zipped ctx (zip_items ctx.pending ctx.vectors)

  unfoldable pub reconcile_stage : Exec (RunContext V I) (Unit {0})
  unfolding on_index
  reconcile_stage ctx = on_index (a.reconcile a.source_id ctx.current) ctx.indexer ctx

  commit_to : Option DocStore → Option String → RunContext V I → Result (Unit {0}) × RunContext V I
  unfolding commit save
  commit_to (some docstore) (some signature) ctx =
      let (gone, docstore') = commit a.source_id signature ctx.entries docstore in
      (ok tt, record ctx { deleted = gone; docstore = some (save docstore') })
  commit_to _ _ ctx = (err (other_error "CommitStage ran without a DocStore"), ctx)

  unfoldable pub commit_stage : Exec (RunContext V I) (Unit {0})
  unfolding commit_to
  commit_stage ctx = commit_to ctx.docstore a.signature ctx
