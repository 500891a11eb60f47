-- ===== src/Pipeline/Stages/Fetch/Invariant.antt =====
-- The fetch stage keeps the invariant.
use alvis.Base.{String, true, Option, none, some, List, [], ◌∷◌, arith}
use alvis.Models.{Artifact, DocumentMeta}
use alvis.Errors.{Result, ok, err}
use alvis.DocStore.{DocStore, DocEntry, entry}
use alvis.Pipeline.Context.{Adapters, RunContext}
use alvis.Pipeline.Invariant.{Inv}
use alvis.Pipeline.Stages.Fetch.{
  fetch_stage, fetch_by, fetch_listed, fetch_wanted, with_artifacts, scan, note_meta, listed_alike,
  listing_table,
}

module _ {V I : Type 0} (a : Adapters V I) (d : Option DocStore) where
  note_meta-Inv :
      (meta : DocumentMeta) (o : Option DocEntry) (wanted : List String) (ctx : RunContext V I)
      → Inv d ctx
      → Inv d (note_meta a meta o wanted ctx).1
  unfolding note_meta
  note_meta-Inv meta (some stored) wanted ctx h = ground arith
  note_meta-Inv meta none wanted ctx h = ground arith

  scan-Inv :
      (docstore : DocStore) (signature : String) (metas : List DocumentMeta) (wanted : List String)
      → (ctx : RunContext V I) → Inv d ctx
      → Inv d (scan a docstore signature metas wanted ctx).1
  unfolding scan
  scan-Inv docstore signature [] wanted ctx h = h
  scan-Inv docstore signature (meta ∷ metas) wanted ctx h =
      let o = listed_alike (entry a.repr docstore a.source_id signature meta.uri) meta in
      scan-Inv docstore signature metas (note_meta a meta o wanted ctx).0
        (note_meta a meta o wanted ctx).1 (note_meta-Inv meta o wanted ctx h)

  with_artifacts-Inv :
      (ctx : RunContext V I) (r : Result (List Artifact))
      → Inv d ctx
      → Inv d (with_artifacts a ctx r).1
  unfolding with_artifacts
  with_artifacts-Inv ctx (ok artifacts) h = ground arith
  with_artifacts-Inv ctx (err e) h = h

  fetch_by-Inv :
      (o : Option DocStore) (signature : Option String)
      (listing : Option (Result (List DocumentMeta)))
      → (ctx : RunContext V I) → Inv d ctx
      → Inv d (fetch_by a o signature listing ctx).1
  unfolding fetch_by fetch_listed
  fetch_by-Inv (some docstore) (some signature) (some (ok metas)) ctx h =
      let ctx' : RunContext V I = record ctx {
        use_listing = true;
        uri_by_meta = listing_table metas;
      } in
      let (wanted, ctx₂) = scan a docstore signature metas [] ctx' in
      with_artifacts-Inv ctx₂ (fetch_wanted a wanted) (
        scan-Inv docstore signature metas [] ctx'
          (record { same_store = h.same_store; balanced = h.balanced }))
  fetch_by-Inv (some docstore) (some signature) (some (err e)) ctx h = ground arith
  fetch_by-Inv _ _ _ ctx h = with_artifacts-Inv ctx (a.fetch none) h

  pub fetch_stage-Inv : (ctx : RunContext V I) → Inv d ctx → Inv d (fetch_stage a ctx).1
  unfolding fetch_stage
  fetch_stage-Inv ctx h = fetch_by-Inv ctx.docstore a.signature a.list_documents ctx h
