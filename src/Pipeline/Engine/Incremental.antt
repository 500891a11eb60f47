-- ===== src/Pipeline/Engine/Incremental.antt =====
-- A run over a listing, and the next run over the same listing.
use alvis.Base.{String, ℕ, ◌≡◌, ◌≢◌, refl, ap, sym, ◌∙◌, true, Option, none, some, List, [], ◌∷◌}
use alvis.Base.{string_eq, if_cases, All, All-imp, length, ==_refl}
use mathlib.Core.Option.{none-ne-some}
use alvis.Base.Dict.{lookup, NodupKeys}
use alvis.Models.{DocumentMeta}
use alvis.Errors.{Result, ok, err, proceed, ◌>>◌}
use alvis.DocStore.{DocStore, DocEntry, entry}
use alvis.Pipeline.Context.{Adapters, RunContext, new_context}
use alvis.Pipeline.Idle.{Reconciles}
use alvis.Pipeline.Stages.Fetch.{fetch_stage, listed_alike, same_fingerprint, listing_table}
use alvis.Pipeline.Stages.Fetch.Listing.{InTable, HasEntry}
use alvis.Pipeline.Stages.Fetch.Delivery.{Delivers, fetch_stage-Fetched}
use alvis.Pipeline.Stages.Extract.{extract_stage}
use alvis.Pipeline.Stages.Extract.Listing.{extract_stage-HasEntry}
use alvis.Pipeline.Stages.Write.Entries.{
  entries-embed_stage, entries-upsert_stage, entries-reconcile_stage, entries-commit_stage,
}
use alvis.Pipeline.Engine.{
  Stage, fetch, extract, embed, upsert, reconcile, commit, stages, step, run_stages, run_stage,
  applicable, execute, finished, run, PipelineResult,
}
use alvis.Pipeline.Engine.Commit.{run_ended}
use alvis.Pipeline.Engine.Idle.{run-Alike}

-- The stages that only write.
abbrev IsWrite : Stage → Type 0
IsWrite fetch = ⊥
IsWrite extract = ⊥
IsWrite _ = Unit {0}

listed_alike_same :
    (o : Option DocEntry) (e : DocEntry) (m : DocumentMeta)
    → o ≡ some e
    → e.listing ≡ some m.fingerprint
    → listed_alike o m ≢ none
unfolding listed_alike same_fingerprint
listed_alike_same o e m p q r =
    let same : same_fingerprint e.listing m.fingerprint ≡ true =
      ap (λ l. same_fingerprint l m.fingerprint) q ∙ ==_refl m.fingerprint in
    none-ne-some e (sym r ∙ ap (λ o. listed_alike o m) p ∙ rw same refl)

module _ {V I : Type 0} (a : Adapters V I) where
  entries-step :
      (s : Stage) → IsWrite s → (ctx : RunContext V I) → (step a s ctx).1.entries ≡ ctx.entries
  unfolding step run_stage
  entries-step s w ctx =
      if_cases (λ (t : Result (Unit {0}) × RunContext V I). t.1.entries ≡ ctx.entries)
        (applicable a s ctx) (run_stage a s ctx) (ok tt, ctx) (λ _. entries-run_stage s w)
        (λ _. refl)
    where
      entries-run_stage : (s : Stage) → IsWrite s → (run_stage a s ctx).1.entries ≡ ctx.entries
      entries-run_stage fetch w = absurd w
      entries-run_stage extract w = absurd w
      entries-run_stage embed w = entries-embed_stage a ctx
      entries-run_stage upsert w = entries-upsert_stage a ctx
      entries-run_stage reconcile w = entries-reconcile_stage a ctx
      entries-run_stage commit w = entries-commit_stage a ctx

  entries-proceed :
      (rest : RunContext V I → Result (Unit {0}) × RunContext V I)
      → ((ctx : RunContext V I) → (rest ctx).1.entries ≡ ctx.entries)
      → (t : Result (Unit {0}) × RunContext V I)
      → (proceed t.0 (λ _. rest) t.1).1.entries ≡ t.1.entries
  entries-proceed rest go (ok u, ctx) = go ctx
  entries-proceed rest go (err e, ctx) = refl

  entries-run_stages :
      (later : List Stage)
      → All IsWrite later
      → (ctx : RunContext V I) → (run_stages a later ctx).1.entries ≡ ctx.entries
  unfolding run_stages
  entries-run_stages [] w ctx = refl
  entries-run_stages (s ∷ later) w ctx =
      entries-proceed (run_stages a later) (entries-run_stages later w.1) (step a s ctx)
      ∙ entries-step s w.0 ctx

  -- What comes after a stage that has not raised.
  proceeds :
      (rest : RunContext V I → Result (Unit {0}) × RunContext V I)
      → (t : Result (Unit {0}) × RunContext V I) → (proceed t.0 (λ _. rest) t.1).0 ≡ ok tt
      → (t.0 ≡ ok tt) × (proceed t.0 (λ _. rest) t.1 ≡ rest t.1)
  proceeds rest (ok u, ctx) done = (refl, refl)
  proceeds rest (err e, ctx) done = cc

  listed_by_fetch :
      (d : DocStore) (i : Option I) (signature : String) (metas : List DocumentMeta)
      → a.signature ≡ some signature
      → a.list_documents ≡ some (ok metas)
      → All (InTable (listing_table metas)) metas
      → All (Delivers a.fetch) metas
      → (run_stages a stages (new_context (some d) i)).0 ≡ ok tt
      → All (HasEntry (run_stages a stages (new_context (some d) i)).1) metas
  unfolding run_stages step applicable run_stage
  listed_by_fetch d i signature metas signed listing ts delivers done =
      let fresh : RunContext V I = new_context (some d) i in
      let rest = run_stages a (embed ∷ upsert ∷ reconcile ∷ commit ∷ []) in
      let fetched = proceeds (λ s. (extract_stage a >> rest) s) (fetch_stage a fresh) done in
      let after = (fetch_stage a fresh).1 in
      let noted = proceeds rest (extract_stage a after) (ap (λ t. t.0) (sym fetched.1) ∙ done) in
      let has =
        extract_stage-HasEntry a (listing_table metas) metas after ts
          (fetch_stage-Fetched a d signature metas fresh refl signed listing ts delivers fetched.0)
          noted.0 in
      let same : (run_stages a stages fresh).1.entries ≡ (extract_stage a after).1.entries =
        ap (λ t. t.1.entries) (fetched.1 ∙ noted.1)
        ∙ entries-run_stages (embed ∷ upsert ∷ reconcile ∷ commit ∷ []) (tt, (tt, (tt, (tt, tt))))
            (extract_stage a after).1 in
      All-imp metas (λ m (e, p, q). (e, ap (lookup m.uri) same ∙ p, q)) has

  ended_stages :
      (result : PipelineResult) (t : Result (Unit {0}) × RunContext V I)
      → (finished a t.0 t.1).0 ≡ ok result
      → (t.0 ≡ ok tt) × ((finished a t.0 t.1).1 ≡ t.1)
  unfolding finished
  ended_stages result (ok u, ctx) h = (refl, refl)
  ended_stages result (err e, ctx) h = cc

  -- If a run over a listing ends, then the next run over the same listing, with the store that the
  -- first has left and with any index, ends, reports each listed document as skipped and none as
  -- changed, and indexes no chunk. The run has a signature, its listing has each uri once in the
  -- table, a fetch of some uris that succeeds brings the listed documents among them, the index forgets without an
  -- error, and the store's ledger has each source once.
  pub run-run :
      (at at' : String) (duration duration' : ℕ) (d : DocStore) (i i' : Option I)
      → (signature : String) (metas : List DocumentMeta) (result : PipelineResult)
      → a.signature ≡ some signature
      → NodupKeys d.ledger
      → a.list_documents ≡ some (ok metas)
      → All (InTable (listing_table metas)) metas
      → All (Delivers a.fetch) metas
      → Reconciles a
      → (run a at duration [] (some d) i).0 ≡ ok result
      → (d' : DocStore) × ((run a at duration [] (some d) i).1 ≡ some d')
        × ((next : PipelineResult) × ((run a at' duration' [] (some d') i').0 ≡ ok next)
            × (next.documents_ingested ≡ length metas)
            × (next.documents_skipped ≡ length metas)
            × (next.documents_changed ≡ 0)
            × (next.chunks_indexed ≡ 0))
  unfolding run execute
  run-run at at' duration duration' d i i' signature metas result signed once listing ts delivers
        forgets ended =
      let (_, (d', left, answers, _)) =
        run_ended a at duration d i signature signed once result ended in
      let (done, same) = ended_stages result (run_stages a stages (new_context (some d) i)) ended in
      let listed = listed_by_fetch d i signature metas signed listing ts delivers done in
      (
        d',
        left,
        run-Alike a at' duration' d' i' signature metas signed listing forgets (
            All-imp metas
              (λ m (e, p, q).
                listed_alike_same (entry a.repr d' a.source_id signature m.uri) e m
                  (answers a.source_id signature m.uri
                    ∙ rw (==_refl a.source_id, ==_refl signature)
                        (ap (λ ctx. lookup m.uri ctx.entries) same ∙ p))
                  q)
              listed),
      )
