-- ===== src/Sources/Provider.antt =====
-- sources/provider.py: a listing source over providers of documents.
pub mod Identity
use alvis.Base.{String, ◌<>◌, ℕ, Bool, true, false, Option, none, some, List, [], ◌∷◌, ◌++◌, map}
use alvis.Base.{Eq, ◌==◌, string_eq, contains, if◌then◌else◌, ltb, filterb}
use alvis.Base.Dict.{Dict, insert, set_default}
use alvis.Value.{Value, text}
use alvis.Models.{Artifact, DocumentMeta, Metadata}
use alvis.Errors.{Error, source_error, Result, ok, err}

-- The content is a text, as bytes or not.
pub record SourceDocument : Type 0 where
  pub id : String
  pub content : String
  pub title : String
  pub uri : Option String
  pub content_type : String
  pub metadata : Metadata

-- `self.uri or self.id`
unfoldable pub locator : SourceDocument → String
unfolding string_eq
locator document = elim document.uri [
  | none ↦ document.id
  | some uri ↦ if uri == "" then document.id else uri
]

-- A provider, by its label, with what `documents()` gives.
pub record Provider : Type 0 where
  pub label : String
  pub documents : Result (List SourceDocument)

pub record ProviderSource : Type 0 where
  pub providers : List Provider
  pub name : String
  pub max_bytes : Option ℕ

abbrev pub exceeds : Option ℕ → ℕ → Bool
exceeds none size = false
exceeds (some cap) size = ltb cap size

-- `metadata.setdefault(key, value)` if the value is not empty
set_text : String → String → Metadata → Metadata
unfolding string_eq set_default
set_text key value metadata =
    if value == "" then metadata else set_default key (text value) metadata

abbrev pub or_empty : Option String → String
or_empty none = ""
or_empty (some s) = s

-- `_artifact`
unfoldable pub artifact_of : String → SourceDocument → Artifact
unfolding locator set_text set_default
artifact_of source_name document = record {
  step_id = document.id;
  uri = locator document;
  content_type = document.content_type;
  body = document.content;
  metadata = set_text "sourceUrl" (or_empty document.uri) (
      set_text "title" document.title (
        set_default "source" (text source_name)
          (set_default "documentId" (text document.id) document.metadata)));
}

module _ (sha256 : String → String) (byte_len : String → ℕ) where
  -- `_fingerprint`: the digest of the fields, each ended by a NUL, and of the body.
  unfoldable pub fingerprint : SourceDocument → String
  unfolding locator
  fingerprint document = sha256 (
      document.id
      <> "\0"
      <> document.title
      <> "\0"
      <> locator document
      <> "\0"
      <> document.content_type
      <> "\0"
      <> document.content)

  unfoldable pub meta_of : SourceDocument → DocumentMeta
  unfolding locator fingerprint
  meta_of document = record {
    uri = locator document;
    step_id = document.id;
    fingerprint = fingerprint document;
    content_type = some document.content_type;
  }

  module _ (source : ProviderSource) where
    duplicate : String → String → Error
    duplicate id label =
        source_error
          (source.name <> ": duplicate document id '" <> id <> "' from provider " <> label)

    -- The loop over the documents of a provider, with the ids seen and the documents kept so far.
    unfoldable pub add_batch :
        String
        → List SourceDocument
        → List String
        → List SourceDocument
        → Result (List String × List SourceDocument)
    unfolding duplicate string_eq
    add_batch label [] seen kept = ok (seen, kept)
    add_batch label (document ∷ batch) seen kept = elim (contains document.id seen) [
      | true ↦ err (duplicate document.id label)
      | false ↦ elim (exceeds source.max_bytes (byte_len document.content)) [
        | true ↦ add_batch label batch seen kept
        | false ↦ add_batch label batch (document.id ∷ seen) (kept ++ document ∷ [])
      ]
    ]

    provider_failure : String → String → Error
    provider_failure label message =
        source_error (source.name <> ": provider " <> label <> " failed: " <> message)

    -- `str(exc)` is a parameter of the failure.
    unfoldable pub add_providers :
        (Error → String)
        → List Provider
        → List String
        → List SourceDocument
        → Result (List SourceDocument)
    unfolding add_batch provider_failure
    add_providers message [] seen kept = ok kept
    add_providers message (provider ∷ rest) seen kept = elim provider.documents [
      | err e ↦ err (provider_failure provider.label (message e))
      | ok batch ↦ elim (add_batch provider.label batch seen kept) [
        | err e ↦ err e
        | ok t ↦ add_providers message rest t.0 t.1
      ]
    ]

    -- `_all`, of which later calls give the same documents again
    unfoldable pub all_documents : (Error → String) → Result (List SourceDocument)
    unfolding add_providers
    all_documents message = add_providers message source.providers [] []

    metas_of : Result (List SourceDocument) → Result (List DocumentMeta)
    unfolding meta_of
    metas_of (err e) = err e
    metas_of (ok documents) = ok (map meta_of documents)

    -- `list_documents`
    unfoldable pub list_documents : (Error → String) → Result (List DocumentMeta)
    unfolding all_documents metas_of
    list_documents message = metas_of (all_documents message)

    chosen : Option (List String) → List Artifact → List Artifact
    unfolding string_eq
    chosen none artifacts = artifacts
    chosen (some uris) artifacts = filterb (λ artifact. contains artifact.uri uris) artifacts

    artifacts_of : Option (List String) → Result (List SourceDocument) → Result (List Artifact)
    unfolding chosen artifact_of
    artifacts_of uris (err e) = err e
    artifacts_of uris (ok documents) = ok (chosen uris (map (artifact_of source.name) documents))

    -- `fetch`
    unfoldable pub fetch : (Error → String) → Option (List String) → Result (List Artifact)
    unfolding all_documents artifacts_of
    fetch message uris = artifacts_of uris (all_documents message)
