-- ===== src/Pipeline/Stages/Fetch/Delivery.antt =====
-- What a fetch by listing leaves for the stages after it.
use alvis.Base.{
  String, ◌≡◌, refl, ap, ◌∙◌, ◌⊎◌, inl, inr, true, Option, some, List, [], ◌∷◌, map, arith,
}
use alvis.Base.{string_eq, contains, All, All-zip}
use mathlib.Core.Path.{ap₂}
use alvis.Base.Dict.{Dict}
use alvis.Models.{Artifact, DocumentMeta}
use alvis.Errors.{Result, ok, err}
use alvis.DocStore.{DocStore, entry}
use alvis.Pipeline.Context.{Adapters, RunContext}
use alvis.Pipeline.Stages.Fetch.{
  fetch_stage, fetch_by, fetch_listed, fetch_wanted, with_artifacts, scan, note_meta, listed_alike,
  listing_table, stamp_all, stamp,
}
use alvis.Pipeline.Stages.Fetch.Listing.{InTable, HasEntry, Seen, scan_sees, uris_of}

-- A listed document is noted, or its body is at hand.
abbrev pub Reached : {V I : Type 0} → RunContext V I → List Artifact → DocumentMeta → Type 0
Reached ctx artifacts m = HasEntry ctx m ⊎ (contains m.uri (uris_of artifacts) ≡ true)

-- What a fetch by listing leaves for the stages after it.
pub record Fetched {V I : Type 0} (table : Dict String DocumentMeta) (metas : List DocumentMeta)
    (ctx : RunContext V I) : Type 0 where
  pub by_listing : ctx.use_listing ≡ true
  pub the_table : ctx.uri_by_meta ≡ table
  pub reached : All (Reached ctx ctx.artifacts) metas

uris_of-stamp_all :
    (acl : List String) (artifacts : List Artifact)
    → uris_of (stamp_all acl artifacts) ≡ uris_of artifacts
unfolding stamp_all
uris_of-stamp_all [] artifacts = refl
uris_of-stamp_all (p ∷ ps) artifacts = uris_of-stamp (p ∷ ps) artifacts
  where
    uri-stamp : (acl : List String) (x : Artifact) → (stamp acl x).uri ≡ x.uri
    uri-stamp acl x = ground arith

    uris_of-stamp :
        (acl : List String) (xs : List Artifact) → uris_of (map (stamp acl) xs) ≡ uris_of xs
    uris_of-stamp acl [] = refl
    uris_of-stamp acl (x ∷ xs) = ap₂ (λ u us. u ∷ us) (uri-stamp acl x) (uris_of-stamp acl xs)

-- A fetch of some uris that succeeds brings the document, if it is among them.
abbrev pub Delivers : (Option (List String) → Result (List Artifact)) → DocumentMeta → Type 0
Delivers fetch m =
    (uris : List String) (artifacts : List Artifact)
    → fetch (some uris) ≡ ok artifacts
    → contains m.uri uris ≡ true
    → contains m.uri (uris_of artifacts) ≡ true

module _ {V I : Type 0} (a : Adapters V I) where
  scan_frame :
      (docstore : DocStore) (signature : String) (metas : List DocumentMeta)
      → (wanted : List String) (ctx : RunContext V I)
      → ((scan a docstore signature metas wanted ctx).1.use_listing ≡ ctx.use_listing)
        × ((scan a docstore signature metas wanted ctx).1.uri_by_meta ≡ ctx.uri_by_meta)
  unfolding scan note_meta
  scan_frame docstore signature [] wanted ctx = (refl, refl)
  scan_frame docstore signature (m ∷ metas) wanted ctx =
      let o = listed_alike (entry a.repr docstore a.source_id signature m.uri) m in
      let next = note_meta a m o wanted ctx in
      let (p, q) = scan_frame docstore signature metas next.0 next.1 in
      (p ∙ ground arith, q ∙ ground arith)

  delivered :
      (m : DocumentMeta)
      → Delivers a.fetch m
      → (wanted : List String) (artifacts : List Artifact) → fetch_wanted a wanted ≡ ok artifacts
      → contains m.uri wanted ≡ true
      → contains m.uri (uris_of artifacts) ≡ true
  unfolding fetch_wanted
  delivered m delivers [] artifacts got h = cc
  delivered m delivers (w ∷ wanted) artifacts got h = delivers (w ∷ wanted) artifacts got h

  with_artifacts-Fetched :
      (table : Dict String DocumentMeta) (metas : List DocumentMeta)
      → All (Delivers a.fetch) metas
      → (wanted : List String) → (ctx : RunContext V I) → ctx.use_listing ≡ true
      → ctx.uri_by_meta ≡ table
      → All (Seen a wanted ctx) metas
      → (r : Result (List Artifact)) → fetch_wanted a wanted ≡ r
      → (with_artifacts a ctx r).0 ≡ ok tt
      → Fetched table metas (with_artifacts a ctx r).1
  unfolding with_artifacts
  with_artifacts-Fetched table metas delivers wanted ctx p q seen (err e) got done = cc
  with_artifacts-Fetched table metas delivers wanted ctx p q seen (ok artifacts) got done = record {
    by_listing = p;
    the_table = q;
    reached =
        All-zip metas
          (λ m delivers. elim [
            | inl h ↦ inl h
            | inr h ↦ inr (
                rw (uris_of-stamp_all a.acl artifacts)
                  (delivered m delivers wanted artifacts got h))
          ])
          delivers seen;
  }

  pub fetch_stage-fetch_listed :
      (d : DocStore) (signature : String) (metas : List DocumentMeta) (ctx : RunContext V I)
      → ctx.docstore ≡ some d
      → a.signature ≡ some signature
      → a.list_documents ≡ some (ok metas)
      → fetch_stage a ctx ≡ fetch_listed a d signature (ok metas) ctx
  unfolding fetch_stage
  fetch_stage-fetch_listed d signature metas ctx p q l =
      ap (λ o. fetch_by a o a.signature a.list_documents ctx) p
      ∙ ap₂ (λ s listing. fetch_by a (some d) s listing ctx) q l

  fetch_listed-Fetched :
      (d : DocStore) (signature : String) (metas : List DocumentMeta) (ctx : RunContext V I)
      → All (InTable (listing_table metas)) metas
      → All (Delivers a.fetch) metas
      → (fetch_listed a d signature (ok metas) ctx).0 ≡ ok tt
      → Fetched (listing_table metas) metas (fetch_listed a d signature (ok metas) ctx).1
  unfolding fetch_listed
  fetch_listed-Fetched d signature metas ctx ts delivers done =
      let table = listing_table metas in
      let start : RunContext V I = record ctx { use_listing = true; uri_by_meta = table } in
      let t = scan a d signature metas [] start in
      let (p, q) = scan_frame d signature metas [] start in
      with_artifacts-Fetched table metas delivers t.0 t.1 p q
        (scan_sees a table d signature metas [] start ts) (fetch_wanted a t.0) refl done

  -- With a store, a signature and a listing whose table holds all its metas, over a source that
  -- delivers what is wanted, a fetch that succeeds reaches every listed document.
  pub fetch_stage-Fetched :
      (d : DocStore) (signature : String) (metas : List DocumentMeta) (ctx : RunContext V I)
      → ctx.docstore ≡ some d
      → a.signature ≡ some signature
      → a.list_documents ≡ some (ok metas)
      → All (InTable (listing_table metas)) metas
      → All (Delivers a.fetch) metas
      → (fetch_stage a ctx).0 ≡ ok tt
      → Fetched (listing_table metas) metas (fetch_stage a ctx).1
  fetch_stage-Fetched d signature metas ctx p q l ts delivers =
      rw (fetch_stage-fetch_listed d signature metas ctx p q l)
        (fetch_listed-Fetched d signature metas ctx ts delivers)
