-- ===== src/Pipeline/Stages/Extract.antt =====
-- `ExtractStage`: the delta decision by content hash, extraction and chunking.
pub mod Invariant
pub mod Listing
pub mod Idle
use alvis.Base.{String, ◌<>◌, ℕ, ◌+◌, Bool, true, false, Option, none, some, List, [], ◌∷◌, ◌++◌}
use alvis.Base.{Eq, ◌==◌, string_eq, if◌then◌else◌}
use alvis.Base.Dict.{Dict, lookup, insert, merge}
use alvis.Models.{Artifact, Chunk, Document, DocumentMeta, content_hash}
use alvis.Errors.{Error, pipeline_error, source_error, value_error, Result, ok, err, Exec, ◌>>◌}
use alvis.DocStore.{DocStore, DocEntry, entry}
use alvis.Pipeline.Context.{Adapters, RunContext}

-- `except (SourceError, ValueError)`
artifact_failure : String → Error → Error
artifact_failure uri (source_error message) =
    pipeline_error ("failed on artifact " <> uri <> ": " <> message)
artifact_failure uri (value_error message) =
    pipeline_error ("failed on artifact " <> uri <> ": " <> message)
artifact_failure uri e = e

content_alike : Option DocEntry → String → Bool
content_alike none artifact_hash = false
content_alike (some stored) artifact_hash = stored.content == artifact_hash

listing_of : Option DocumentMeta → Option String
listing_of none = none
listing_of (some meta) = some meta.fingerprint

-- The metadata of the chunk goes over that of the artifact.
unfoldable pub enrich : Artifact → Chunk → Chunk
unfolding merge
enrich artifact c = record c { metadata = merge artifact.metadata c.metadata }

module _ {V I : Type 0} (a : Adapters V I) where
  stored_entry : Option DocStore → Option String → String → Option DocEntry
  stored_entry (some docstore) (some signature) uri =
      entry a.repr docstore a.source_id signature uri
  stored_entry _ _ uri = none

  add_chunks : Artifact → String → List Chunk → RunContext V I → RunContext V I
  unfolding enrich
  add_chunks artifact artifact_hash [] ctx = ctx
  add_chunks artifact artifact_hash (c ∷ chunks) ctx =
      add_chunks artifact artifact_hash chunks (record ctx {
        indexed = ctx.indexed + 1;
        pending = elim ctx.indexer [
          | none ↦ ctx.pending
          | some i ↦ ctx.pending ++ (enrich artifact c, artifact_hash) ∷ []
        ];
      })

  chunked :
      Artifact → String → Result (List Chunk) → RunContext V I → Result (Unit {0}) × RunContext V I
  unfolding artifact_failure add_chunks
  chunked artifact artifact_hash (err e) ctx = (err (artifact_failure artifact.uri e), ctx)
  chunked artifact artifact_hash (ok chunks) ctx =
      (ok tt, add_chunks artifact artifact_hash chunks ctx)

  extracted :
      Artifact → String → Result Document → RunContext V I → Result (Unit {0}) × RunContext V I
  unfolding chunked
  extracted artifact artifact_hash (err e) ctx = (err (artifact_failure artifact.uri e), ctx)
  extracted artifact artifact_hash (ok document) ctx =
      chunked artifact artifact_hash (a.chunk document) ctx

  -- What is done with an artifact that is not skipped.
  process : Artifact → String → Exec (RunContext V I) (Unit {0})
  unfolding listing_of extracted lookup insert
  process artifact artifact_hash ctx =
      extracted artifact artifact_hash (a.extract artifact) (record ctx {
        entries =
            insert artifact.uri
              (record {
                content = artifact_hash;
                listing = listing_of (lookup artifact.uri ctx.uri_by_meta);
              })
              ctx.entries;
      })

  skip : Artifact → String → RunContext V I → RunContext V I
  unfolding insert
  skip artifact artifact_hash ctx = record ctx {
    documents = ctx.documents + 1;
    skipped = ctx.skipped + 1;
    entries = insert artifact.uri (record { content = artifact_hash; listing = none }) ctx.entries;
  }

  -- One artifact, of which `current` has been told.
  decide : Artifact → String → Exec (RunContext V I) (Unit {0})
  unfolding process skip content_alike stored_entry
  decide artifact artifact_hash ctx =
      if ctx.use_listing
      then process artifact artifact_hash ctx
      else if content_alike (stored_entry ctx.docstore a.signature artifact.uri) artifact_hash
      then (ok tt, skip artifact artifact_hash ctx)
      else process artifact artifact_hash
          (record ctx { documents = ctx.documents + 1; changed = ctx.changed + 1 })

  extract_one : Artifact → Exec (RunContext V I) (Unit {0})
  unfolding decide insert content_hash
  extract_one artifact ctx =
      decide artifact (content_hash a.sha256 artifact)
        (record ctx { current = insert artifact.uri (content_hash a.sha256 artifact) ctx.current })

  -- The loop ends with the first artifact that raises.
  extract_all : List Artifact → Exec (RunContext V I) (Unit {0})
  unfolding extract_one
  extract_all [] ctx = (ok tt, ctx)
  extract_all (artifact ∷ artifacts) ctx = (extract_one artifact >> extract_all artifacts) ctx

  unfoldable pub extract_stage : Exec (RunContext V I) (Unit {0})
  unfolding extract_all
  extract_stage ctx = extract_all ctx.artifacts ctx
