-- ===== src/Pipeline/Stages/Fetch.antt =====
-- `FetchStage`: decide from the listing what changed, fetch bodies, and stamp the static ACL.
pub mod Invariant
pub mod Listing
pub mod Delivery
pub mod Idle
use alvis.Base.{
  String, ◌<>◌, ℕ, ◌+◌, Bool, true, false, Option, none, some, List, [], ◌∷◌, ◌++◌, map,
}
use alvis.Base.{Eq, ◌==◌, string_eq, contains, if◌then◌else◌, is_some}
use alvis.Base.Dict.{Dict, lookup, insert}
use alvis.Value.{Value, Items, nil, cons, seq, text}
use alvis.Models.{Artifact, DocumentMeta, Metadata}
use alvis.Errors.{Error, pipeline_error, source_error, Result, ok, err, Exec}
use alvis.DocStore.{DocStore, DocEntry, entry}
use alvis.Pipeline.Context.{Adapters, RunContext}

-- `{meta.uri: meta for meta in metas}`
by_uri : Dict String DocumentMeta → List DocumentMeta → Dict String DocumentMeta
unfolding insert
by_uri d [] = d
by_uri d (meta ∷ metas) = by_uri (insert meta.uri meta d) metas

unfoldable pub listing_table : List DocumentMeta → Dict String DocumentMeta
unfolding by_uri
listing_table metas = by_uri [] metas

-- `wanted.add(uri)`, for a set as the list of its elements
add_to_set : String → List String → List String
add_to_set uri wanted = if contains uri wanted then wanted else wanted ++ uri ∷ []

-- `stored.listing is not None and stored.listing == meta.fingerprint`
unfoldable pub same_fingerprint : Option String → String → Bool
same_fingerprint none fingerprint = false
same_fingerprint (some listing) fingerprint = listing == fingerprint

-- The entry to go on with, if its listing fingerprint is that of the meta.
unfoldable pub listed_alike : Option DocEntry → DocumentMeta → Option DocEntry
unfolding same_fingerprint
listed_alike none meta = none
listed_alike (some stored) meta =
    if same_fingerprint stored.listing meta.fingerprint then some stored else none

-- `except SourceError`
fetch_failure : String → Error → Error
fetch_failure source_type (source_error message) =
    pipeline_error ("source '" <> source_type <> "' failed: " <> message)
fetch_failure source_type e = e

acl_items : List String → Items
acl_items [] = nil
acl_items (p ∷ ps) = cons (text p) (acl_items ps)

-- An `acl` that the connector supplied wins over the static one.
stamp : List String → Artifact → Artifact
unfolding acl_items lookup insert
stamp acl artifact =
    if is_some (lookup "acl" artifact.metadata)
    then artifact
    else record artifact { metadata = insert "acl" (seq (acl_items acl)) artifact.metadata }

unfoldable pub stamp_all : List String → List Artifact → List Artifact
unfolding stamp
stamp_all [] artifacts = artifacts
stamp_all (p ∷ ps) artifacts = map (stamp (p ∷ ps)) artifacts

module _ {V I : Type 0} (a : Adapters V I) where
  -- One round of the loop over the listing.
  note_meta :
      DocumentMeta → Option DocEntry → List String → RunContext V I → List String × RunContext V I
  unfolding add_to_set
  note_meta meta (some stored) wanted ctx = (
    wanted,
    record ctx {
      documents = ctx.documents + 1;
      skipped = ctx.skipped + 1;
      current = insert meta.uri stored.content ctx.current;
      entries = insert meta.uri stored ctx.entries;
    },
  )
  note_meta meta none wanted ctx = (
    add_to_set meta.uri wanted,
    record ctx { documents = ctx.documents + 1; changed = ctx.changed + 1 },
  )

  pub scan :
      DocStore
      → String
      → List DocumentMeta
      → List String
      → RunContext V I
      → List String × RunContext V I
  unfolding note_meta listed_alike
  scan docstore signature [] wanted ctx = (wanted, ctx)
  scan docstore signature (meta ∷ metas) wanted ctx =
      let stored = entry a.repr docstore a.source_id signature meta.uri in
      let (wanted', ctx') = note_meta meta (listed_alike stored meta) wanted ctx in
      scan docstore signature metas wanted' ctx'

  -- The end of the `try` and what follows it.
  with_artifacts : RunContext V I → Result (List Artifact) → Result (Unit {0}) × RunContext V I
  unfolding fetch_failure stamp_all
  with_artifacts ctx (ok artifacts) = (ok tt, record ctx { artifacts = stamp_all a.acl artifacts })
  with_artifacts ctx (err e) = (err (fetch_failure a.source_type e), ctx)

  -- `await listing.fetch(uris=wanted) if wanted else []`
  fetch_wanted : List String → Result (List Artifact)
  fetch_wanted [] = ok []
  fetch_wanted (uri ∷ wanted) = a.fetch (some (uri ∷ wanted))

  pub fetch_listed :
      DocStore
      → String
      → Result (List DocumentMeta)
      → RunContext V I
      → Result (Unit {0}) × RunContext V I
  unfolding listing_table scan with_artifacts fetch_wanted
  fetch_listed docstore signature (err e) ctx =
      (err (fetch_failure a.source_type e), record ctx { use_listing = true })
  fetch_listed docstore signature (ok metas) ctx =
      let (wanted, ctx') =
        scan docstore signature metas []
          (record ctx { use_listing = true; uri_by_meta = listing_table metas }) in
      with_artifacts ctx' (fetch_wanted wanted)

  -- Without a store, a signature or a listing all bodies are fetched.
  fetch_by :
      Option DocStore
      → Option String
      → Option (Result (List DocumentMeta))
      → RunContext V I
      → Result (Unit {0}) × RunContext V I
  unfolding fetch_listed
  fetch_by (some docstore) (some signature) (some listing) ctx =
      fetch_listed docstore signature listing ctx
  fetch_by _ _ _ ctx = with_artifacts ctx (a.fetch none)

  unfoldable pub fetch_stage : Exec (RunContext V I) (Unit {0})
  unfolding fetch_by
  fetch_stage ctx = fetch_by ctx.docstore a.signature a.list_documents ctx
