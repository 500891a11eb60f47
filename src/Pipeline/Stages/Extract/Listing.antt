-- ===== src/Pipeline/Stages/Extract/Listing.antt =====
-- After a fetch by listing, the extract stage notes every document whose body is at hand.
use alvis.Base.{String, ◌≡◌, refl, ap, sym, ◌∙◌, ◌⊎◌, inl, inr, true, some, List, [], ◌∷◌}
use alvis.Base.{◌==◌, string_eq, contains, All, All-imp, All-zip, Bool-cases, if_cases, ==→eq}
use mathlib.Core.Bool.{false≢true}
use mathlib.Core.Path.{subst}
use alvis.Base.Dict.{Dict, lookup, insert, lookup-insert}
use alvis.Models.{Artifact, Chunk, Document, DocumentMeta, content_hash}
use alvis.Errors.{Result, ok, err, proceed}
use alvis.DocStore.{DocEntry}
use alvis.Pipeline.Context.{Adapters, RunContext}
use alvis.Pipeline.Stages.Fetch.Listing.{InTable, HasEntry, uris_of}
use alvis.Pipeline.Stages.Fetch.Delivery.{Reached, Fetched}
use alvis.Pipeline.Stages.Extract.{
  extract_stage, extract_all, extract_one, decide, process, extracted, chunked, add_chunks,
  listing_of,
}

abbrev NotedIn : Dict String DocEntry → DocumentMeta → Type 0
NotedIn entries m =
    (e : DocEntry) × (lookup m.uri entries ≡ some e) × (e.listing ≡ some m.fingerprint)

-- What extraction proper does not touch.
record SameNotes {V I : Type 0} (ctx ctx' : RunContext V I) : Type 0 where
  entries : ctx'.entries ≡ ctx.entries
  listing : ctx'.use_listing ≡ ctx.use_listing
  table : ctx'.uri_by_meta ≡ ctx.uri_by_meta

module _ {V I : Type 0} (a : Adapters V I) where
  add_chunks-SameNotes :
      (artifact : Artifact) (h : String) (chunks : List Chunk) (ctx : RunContext V I)
      → SameNotes ctx (add_chunks a artifact h chunks ctx)
  unfolding add_chunks
  add_chunks-SameNotes artifact h [] ctx = record { entries = refl; listing = refl; table = refl }
  add_chunks-SameNotes artifact h (c ∷ chunks) ctx =
      let r = add_chunks-SameNotes artifact h chunks _ in
      record { entries = r.entries; listing = r.listing; table = r.table }

  chunked-SameNotes :
      (artifact : Artifact) (h : String) (r : Result (List Chunk)) (ctx : RunContext V I)
      → SameNotes ctx (chunked a artifact h r ctx).1
  unfolding chunked
  chunked-SameNotes artifact h (err e) ctx = record { entries = refl; listing = refl; table = refl }
  chunked-SameNotes artifact h (ok chunks) ctx = add_chunks-SameNotes artifact h chunks ctx

  extracted-SameNotes :
      (artifact : Artifact) (h : String) (r : Result Document) (ctx : RunContext V I)
      → SameNotes ctx (extracted a artifact h r ctx).1
  unfolding extracted
  extracted-SameNotes artifact h (err e) ctx = record {
    entries = refl;
    listing = refl;
    table = refl;
  }
  extracted-SameNotes artifact h (ok document) ctx =
      chunked-SameNotes artifact h (a.chunk document) ctx

  decide-process :
      (artifact : Artifact) (h : String) (ctx : RunContext V I)
      → ctx.use_listing ≡ true
      → decide a artifact h ctx ≡ process a artifact h ctx
  unfolding decide
  decide-process artifact h ctx by_listing =
      if_cases (λ (t : Result (Unit {0}) × RunContext V I). t ≡ process a artifact h ctx)
        ctx.use_listing (process a artifact h ctx) _ (λ _. refl)
        (λ e. absurd (false≢true (sym e ∙ by_listing)))

  -- With a listing, an artifact is processed whatever is stored.
  extract_one_notes :
      (artifact : Artifact) (ctx : RunContext V I)
      → ctx.use_listing ≡ true
      → let ctx' = (extract_one a artifact ctx).1 in
        (ctx'.entries
          ≡ insert artifact.uri
              (record {
                content = content_hash a.sha256 artifact;
                listing = listing_of (lookup artifact.uri ctx.uri_by_meta);
              })
              ctx.entries)
        × (ctx'.use_listing ≡ true)
        × (ctx'.uri_by_meta ≡ ctx.uri_by_meta)
  unfolding extract_one process
  extract_one_notes artifact ctx by_listing =
      let h = content_hash a.sha256 artifact in
      let ctx₁ : RunContext V I = record ctx { current = insert artifact.uri h ctx.current } in
      let ctx₂ : RunContext V I = record ctx₁ {
        entries =
            insert artifact.uri
              (record { content = h; listing = listing_of (lookup artifact.uri ctx.uri_by_meta) })
              ctx.entries;
      } in
      let r = extracted-SameNotes artifact h (a.extract artifact) ctx₂ in
      rw (decide-process artifact h ctx₁ by_listing) (r.entries, r.listing ∙ by_listing, r.table)

  note_one :
      (table : Dict String DocumentMeta) (artifact : Artifact) (artifacts : List Artifact)
      → (entries : Dict String DocEntry) (h : String) → (m : DocumentMeta) → InTable table m
      → NotedIn entries m ⊎ (contains m.uri (uris_of (artifact ∷ artifacts)) ≡ true)
      → NotedIn
          (insert artifact.uri
            (record { content = h; listing = listing_of (lookup artifact.uri table) })
            entries)
          m
        ⊎ (contains m.uri (uris_of artifacts) ≡ true)
  unfolding listing_of
  note_one table artifact artifacts entries h m t reached =
      let noted : DocEntry = record {
        content = h;
        listing = listing_of (lookup artifact.uri table);
      } in
      elim (Bool-cases (m.uri == artifact.uri)) [
        | inl same ↦ inl (
          noted,
          lookup-insert m.uri artifact.uri noted entries ∙ rw same,
          ap listing_of (ap (λ u. lookup u table) (sym (==→eq m.uri artifact.uri same)) ∙ t),
        )
        | inr other ↦ elim reached [
          | inl (e, p, q) ↦ inl (e, lookup-insert m.uri artifact.uri noted entries ∙ rw other p, q)
          | inr h ↦ inr (rw other at h)
        ]
      ]

  -- A document noted with its fingerprint stays so, and one whose body is extracted becomes so.
  noted_by_extract :
      (table : Dict String DocumentMeta) (artifact : Artifact) (artifacts : List Artifact)
      → (ctx : RunContext V I) → ctx.use_listing ≡ true
      → ctx.uri_by_meta ≡ table
      → (m : DocumentMeta) → InTable table m
      → Reached ctx (artifact ∷ artifacts) m
      → Reached (extract_one a artifact ctx).1 artifacts m
  noted_by_extract table artifact artifacts ctx p q m t reached =
      let h = content_hash a.sha256 artifact in
      subst (λ entries. NotedIn entries m ⊎ (contains m.uri (uris_of artifacts) ≡ true))
        (sym (extract_one_notes artifact ctx p).0)
        (note_one ctx.uri_by_meta artifact artifacts ctx.entries h m
          (ap (λ d. lookup m.uri d) q ∙ t) reached)

  Noted : List DocumentMeta → Result (Unit {0}) × RunContext V I → Type 0
  Noted metas (r, ctx) = r ≡ ok tt → All (HasEntry ctx) metas

  after_one :
      (metas : List DocumentMeta) (rest : RunContext V I → Result (Unit {0}) × RunContext V I)
      → (t : Result (Unit {0}) × RunContext V I) → Noted metas (rest t.1)
      → Noted metas (proceed t.0 (λ _. rest) t.1)
  unfolding Noted
  after_one metas rest (ok u, ctx) h done = h done
  after_one metas rest (err e, ctx) h done = cc

  extract_all-HasEntry :
      (table : Dict String DocumentMeta) (metas : List DocumentMeta)
      → (artifacts : List Artifact) (ctx : RunContext V I) → ctx.use_listing ≡ true
      → ctx.uri_by_meta ≡ table
      → All (InTable table) metas
      → All (Reached ctx artifacts) metas
      → Noted metas (extract_all a artifacts ctx)
  unfolding extract_all Noted
  extract_all-HasEntry table metas [] ctx p q ts reached done =
      All-imp metas (λ m. elim [ inl h ↦ h | inr h ↦ absurd (false≢true h) ]) reached
  extract_all-HasEntry table metas (artifact ∷ artifacts) ctx p q ts reached done =
      let (_, p', q') = extract_one_notes artifact ctx p in
      after_one metas (extract_all a artifacts) (extract_one a artifact ctx)
        (extract_all-HasEntry table metas artifacts (extract_one a artifact ctx).1 p' (q' ∙ q) ts (
          All-zip metas (λ m t r. noted_by_extract table artifact artifacts ctx p q m t r) ts
            reached))
        done

  -- After a fetch by listing, an extraction that does not raise has noted every listed document.
  pub extract_stage-HasEntry :
      (table : Dict String DocumentMeta) (metas : List DocumentMeta) (ctx : RunContext V I)
      → All (InTable table) metas
      → Fetched table metas ctx
      → (extract_stage a ctx).0 ≡ ok tt
      → All (HasEntry (extract_stage a ctx).1) metas
  unfolding extract_stage Noted
  extract_stage-HasEntry table metas ctx ts h =
      extract_all-HasEntry table metas ctx.artifacts ctx h.by_listing h.the_table ts h.reached
