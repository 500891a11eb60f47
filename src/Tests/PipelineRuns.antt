-- ===== src/Tests/PipelineRuns.antt =====
-- Whole runs over an in-memory index.
use alvis.Base.{
  String, ℕ, ◌+◌, ◌≡◌, refl, Option, none, some, List, [], ◌∷◌, map, string_eq, ◌==◌, if◌then◌else◌,
  contains, filterb,
}
use alvis.Base.Dict.{lookup}
use alvis.Models.{Artifact, DocumentMeta}
use alvis.Errors.{source_error, pipeline_error, Result, ok, err}
use alvis.DocStore.{DocStore, entry, last_run}
use alvis.Index.Memory.{MemoryIndex, empty_index, upsert, reconcile}
use alvis.Pipeline.Context.{Adapters}
use alvis.Pipeline.Engine.{PipelineResult, execute, run, record_of}
use alvis.Base.{true, false, Bool, ap}
use mathlib.Core.Path.{subst}
use alvis.Pipeline.Stages.Fetch.{listing_table}
use alvis.Pipeline.Stages.Fetch.Listing.{uris_of}
use alvis.Pipeline.Stages.Fetch.Delivery.{Delivers}
use alvis.Pipeline.Engine.Incremental.{run-run}
use alvis.Pipeline.Engine.Commit.{run_failed, run_ended}
use alvis.Tests.Fixtures.{repr, plain, empty_store}

abbrev artifact : String → String → Artifact
artifact uri body = record {
  step_id = uri;
  uri = uri;
  content_type = "text/plain";
  body = body;
  metadata = [];
}

abbrev meta : String → String → DocumentMeta
meta uri fingerprint = record {
  uri = uri;
  step_id = uri;
  fingerprint = fingerprint;
  content_type = none;
}

abbrev two_documents : List Artifact
two_documents = artifact "a.md" "alpha" ∷ artifact "b.md" "beta" ∷ []

abbrev pick : Option (List String) → List Artifact → List Artifact
pick none artifacts = artifacts
pick (some uris) artifacts = filterb (λ x. contains x.uri uris) artifacts

unfoldable pub adapters : Adapters (List ℕ) (MemoryIndex ℕ)
unfolding upsert reconcile string_eq
adapters = record {
  source_id = "fs:docs";
  signature = some "s1";
  source_type = "fs";
  acl = [];
  sha256 = plain;
  repr = repr;
  list_documents = some (ok (meta "a.md" "f1" ∷ meta "b.md" "f2" ∷ []));
  fetch = λ uris. ok (pick uris two_documents);
  extract = λ x. ok (record {
    schema_version = 1;
    uri = x.uri;
    title = "";
    sections = record { heading = ""; body = x.body } ∷ [];
  });
  chunk =
      λ d. ok (map (λ s. record { text = s.body; source_uri = d.uri; metadata = [] }) d.sections);
  embed_batch = λ chunks. (ok (map (λ c. 1 ∷ []) chunks), 0, 0);
  upsert = λ c v s h i. (ok tt, upsert plain c v s h i);
  upsert_batch = none;
  reconcile = λ s current i. (ok tt, reconcile s current i);
}

abbrev first_result : PipelineResult
first_result = record {
  documents_ingested = 2;
  chunks_indexed = 2;
  embed_cache_hits = 0;
  embed_cache_misses = 0;
  documents_changed = 2;
  documents_skipped = 0;
  documents_deleted = 0;
}

first_run : (run adapters "t" 1 [] (some empty_store) (some empty_index)).0 ≡ ok first_result
unfolding run adapters entry
first_run = refl

broken : Adapters (List ℕ) (MemoryIndex ℕ)
unfolding adapters
broken = record adapters { list_documents = some (err (source_error "down")) }

source_is_down :
    (run broken "t" 1 [] (some empty_store) (some empty_index)).0
    ≡ err (pipeline_error "source 'fs' failed: down")
unfolding run broken
source_is_down = refl

run_failed_example :
    (d' : DocStore) × ((run broken "t" 1 [] (some empty_store) (some empty_index)).1 ≡ some d')
    × (d'.sources ≡ empty_store.sources)
    × (last_run d' broken.source_id
        ≡ some (record_of broken "t" 1 (err (pipeline_error "source 'fs' failed: down"))))
unfolding broken
run_failed_example =
    run_failed broken "t" 1 empty_store (some empty_index) "s1" refl tt
      (pipeline_error "source 'fs' failed: down") source_is_down

run_ended_example :
    (first_result.documents_ingested
      ≡ first_result.documents_changed + first_result.documents_skipped)
    × ((d' : DocStore) × ((run adapters "t" 1 [] (some empty_store) (some empty_index)).1 ≡ some d')
        × ((source_id signature' uri : String)
            → entry adapters.repr d' source_id signature' uri ≡ (
                if source_id == adapters.source_id
                then (if "s1" == signature'
                    then lookup uri
                        (execute adapters [] (some empty_store) (some empty_index)).1.entries
                    else none)
                else entry adapters.repr empty_store source_id signature' uri))
        × (last_run d' adapters.source_id ≡ some (record_of adapters "t" 1 (ok first_result))))
unfolding adapters
run_ended_example =
    run_ended adapters "t" 1 empty_store (some empty_index) "s1" refl tt first_result first_run

fetched : Result (List Artifact) → List Artifact
fetched (ok artifacts) = artifacts
fetched (err e) = []

pick-Delivers : Delivers (λ uris. ok (pick uris two_documents)) (meta "a.md" "f1")
unfolding fetched string_eq
pick-Delivers uris artifacts got h =
    subst (λ xs. contains "a.md" (uris_of xs) ≡ true) (ap fetched got) (rw h refl)

pick-Delivers_last : Delivers (λ uris. ok (pick uris two_documents)) (meta "b.md" "f2")
unfolding fetched string_eq
pick-Delivers_last uris artifacts got h =
    subst (λ xs. contains "b.md" (uris_of xs) ≡ true) (ap fetched got)
      (rw h (has_b (contains "a.md" uris)))
  where
    has_b :
        (p : Bool)
        → contains "b.md" (
            uris_of (
              if p
              then artifact "a.md" "alpha" ∷ artifact "b.md" "beta" ∷ []
              else artifact "b.md" "beta" ∷ []))
          ≡ true
    has_b true = refl
    has_b false = refl

run-run_example :
    (d' : DocStore) × ((run adapters "t" 1 [] (some empty_store) (some empty_index)).1 ≡ some d')
    × ((next : PipelineResult) × ((run adapters "u" 2 [] (some d') (some empty_index)).0 ≡ ok next)
        × (next.documents_ingested ≡ 2)
        × (next.documents_skipped ≡ 2)
        × (next.documents_changed ≡ 0)
        × (next.chunks_indexed ≡ 0))
unfolding adapters listing_table
run-run_example =
    run-run adapters "t" "u" 1 2 empty_store (some empty_index) (some empty_index) "s1"
      (meta "a.md" "f1" ∷ meta "b.md" "f2" ∷ []) first_result refl tt refl (refl, (refl, tt))
      (pick-Delivers, (pick-Delivers_last, tt)) (λ current i. refl) first_run
