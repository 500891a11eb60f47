-- ===== src/Pipeline/Stages/Extract/Invariant.antt =====
-- The extract stage keeps the invariant.
use alvis.Base.{String, ◌+◌, Option, List, [], ◌∷◌, arith}
use alvis.Base.{if_cases}
use alvis.Models.{Artifact, Chunk, Document, content_hash}
use alvis.Errors.{Result, ok, err, >>-keeps}
use alvis.DocStore.{DocStore}
use alvis.Pipeline.Context.{Adapters, RunContext}
use alvis.Pipeline.Invariant.{Inv}
use alvis.Pipeline.Stages.Extract.{
  extract_stage, extract_all, extract_one, decide, skip, process, extracted, chunked, add_chunks,
  stored_entry, content_alike,
}

module _ {V I : Type 0} (a : Adapters V I) (d : Option DocStore) where
  add_chunks-Inv :
      (artifact : Artifact) (artifact_hash : String) (chunks : List Chunk) (ctx : RunContext V I)
      → Inv d ctx
      → Inv d (add_chunks a artifact artifact_hash chunks ctx)
  unfolding add_chunks
  add_chunks-Inv artifact artifact_hash [] ctx h = h
  add_chunks-Inv artifact artifact_hash (c ∷ chunks) ctx h =
      add_chunks-Inv artifact artifact_hash chunks _
        (record { same_store = h.same_store; balanced = h.balanced })

  extracted-Inv :
      (artifact : Artifact) (artifact_hash : String) (r : Result Document) (ctx : RunContext V I)
      → Inv d ctx
      → Inv d (extracted a artifact artifact_hash r ctx).1
  unfolding extracted
  extracted-Inv artifact artifact_hash (err e) ctx h = h
  extracted-Inv artifact artifact_hash (ok document) ctx h = chunked-Inv (a.chunk document)
    where
      chunked-Inv : (r : Result (List Chunk)) → Inv d (chunked a artifact artifact_hash r ctx).1
      chunked-Inv (err e) = h
      chunked-Inv (ok chunks) = add_chunks-Inv artifact artifact_hash chunks ctx h

  process-Inv :
      (artifact : Artifact) (artifact_hash : String) (ctx : RunContext V I)
      → Inv d ctx
      → Inv d (process a artifact artifact_hash ctx).1
  unfolding process
  process-Inv artifact artifact_hash ctx h =
      extracted-Inv artifact artifact_hash (a.extract artifact) _
        (record { same_store = h.same_store; balanced = h.balanced })

  abbrev Kept : Result (Unit {0}) × RunContext V I → Type 0
  Kept t = Inv d t.1

  decide-Inv :
      (artifact : Artifact) (artifact_hash : String) (ctx : RunContext V I)
      → Inv d ctx
      → Inv d (decide a artifact artifact_hash ctx).1
  unfolding decide skip
  decide-Inv artifact artifact_hash ctx h =
      if_cases Kept ctx.use_listing _ _ (λ listing. process-Inv artifact artifact_hash ctx h)
        (λ e.
          if_cases Kept
            (content_alike (stored_entry a ctx.docstore a.signature artifact.uri) artifact_hash) _ _
            (λ same. record { same_store = h.same_store; balanced = omega arith })
            (λ other.
              process-Inv artifact artifact_hash
                (record ctx { documents = ctx.documents + 1; changed = ctx.changed + 1 })
                (record { same_store = h.same_store; balanced = omega arith })))

  extract_one-Inv :
      (artifact : Artifact) (ctx : RunContext V I)
      → Inv d ctx
      → Inv d (extract_one a artifact ctx).1
  unfolding extract_one
  extract_one-Inv artifact ctx h =
      decide-Inv artifact (content_hash a.sha256 artifact) _
        (record { same_store = h.same_store; balanced = h.balanced })

  extract_all-Inv :
      (artifacts : List Artifact) (ctx : RunContext V I)
      → Inv d ctx
      → Inv d (extract_all a artifacts ctx).1
  unfolding extract_all
  extract_all-Inv [] ctx h = h
  extract_all-Inv (artifact ∷ artifacts) ctx h =
      >>-keeps (Inv d) (extract_one a artifact) (extract_all a artifacts) ctx
        (extract_one-Inv artifact ctx h) (extract_all-Inv artifacts)

  pub extract_stage-Inv : (ctx : RunContext V I) → Inv d ctx → Inv d (extract_stage a ctx).1
  unfolding extract_stage
  extract_stage-Inv ctx h = extract_all-Inv ctx.artifacts ctx h
