-- ===== src/Pipeline/Engine/Commit.antt =====
-- The document state is committed by successful runs alone.
use alvis.Base.{String, ℕ, ◌+◌, ◌≡◌, refl, Option, none, some, List, [], ◌∷◌, arith}
use mathlib.Core.Path.{ap₂, subst}
use alvis.Base.{if_cases, if◌then◌else◌, is_some, ◌&&◌, ◌++◌, ap, ◌∙◌, All}
use alvis.Errors.{Error, Result, ok, err, proceed}
use alvis.DocStore.{DocStore, RunRecord, record_run, last_run, entry, save, commit as commit_docs}
use alvis.Pipeline.Context.{Adapters, RunContext, new_context}
use alvis.Pipeline.Invariant.{Inv}
use alvis.Pipeline.Stages.Fetch.Invariant.{fetch_stage-Inv}
use alvis.Pipeline.Stages.Extract.Invariant.{extract_stage-Inv}
use alvis.Pipeline.Stages.Write.Invariant.{
  embed_stage-Inv, upsert_stage-Inv, reconcile_stage-Inv, commit_stage_lem,
}
use alvis.Pipeline.Stages.Write.{commit_stage}
use alvis.Pipeline.Engine.{
  Stage, fetch, extract, embed, upsert, reconcile, commit, stages, step, run_stages, run_stage,
  applicable, execute, finished, run, record_of, note_run, PipelineResult,
}
use alvis.DocStore.Ledger.{last_run-record_run}
use alvis.DocStore.Commit.{entry-commit, save-commit_ledger}
use alvis.Base.{◌==◌, string_eq}
use alvis.Base.Dict.{NodupKeys, lookup}

abbrev IsEarly : Stage → Type 0
IsEarly commit = ⊥
IsEarly _ = Unit {0}

module _ {V I : Type 0} (a : Adapters V I) (d : Option DocStore) where
  run_stage-Inv :
      (s : Stage) → IsEarly s → (ctx : RunContext V I) → Inv d ctx → Inv d (run_stage a s ctx).1
  unfolding run_stage
  run_stage-Inv fetch e ctx h = fetch_stage-Inv a d ctx h
  run_stage-Inv extract e ctx h = extract_stage-Inv a d ctx h
  run_stage-Inv embed e ctx h = embed_stage-Inv a d ctx h
  run_stage-Inv upsert e ctx h = upsert_stage-Inv a d ctx h
  run_stage-Inv reconcile e ctx h = reconcile_stage-Inv a d ctx h
  run_stage-Inv commit e ctx h = absurd e

  abbrev Kept : Result (Unit {0}) × RunContext V I → Type 0
  Kept t = Inv d t.1

  step-Inv : (s : Stage) → IsEarly s → (ctx : RunContext V I) → Inv d ctx → Inv d (step a s ctx).1
  unfolding step
  step-Inv s e ctx h =
      if_cases Kept (applicable a s ctx) (run_stage a s ctx) (ok tt, ctx)
        (λ _. run_stage-Inv s e ctx h) (λ _. h)

-- The document store after the commit of a run that began with the store `o`.
abbrev pub Committed :
    {V I : Type 0} → Adapters V I → Option DocStore → Option String → RunContext V I → Type 0
Committed a (some docstore) (some signature) ctx =
    (ctx.docstore ≡ some (save (commit_docs a.source_id signature ctx.entries docstore).1))
    × (ctx.deleted ≡ (commit_docs a.source_id signature ctx.entries docstore).0)
Committed a o signature ctx = ctx.docstore ≡ o

-- Stages that raise have not committed; those that end have.
abbrev pub Outcome :
    {V I : Type 0}
    → Adapters V I
    → Option DocStore
    → Option String
    → Result (Unit {0}) × RunContext V I
    → Type 0
Outcome a o signature (err e, ctx) = ctx.docstore ≡ o
Outcome a o signature (ok u, ctx) =
    (ctx.documents ≡ ctx.changed + ctx.skipped) × Committed a o signature ctx

module _ {V I : Type 0} (a : Adapters V I) where
  step-commit :
      (o : Option DocStore) (signature : Option String) (ctx : RunContext V I)
      → ctx.docstore ≡ o
      → a.signature ≡ signature
      → step a commit ctx
        ≡ (if is_some o && is_some signature then commit_stage a ctx else (ok tt, ctx))
  unfolding step
  step-commit o signature ctx p q =
      ap₂ (λ o s. if is_some o && is_some s then commit_stage a ctx else (ok tt, ctx)) p q

  step-commit-Outcome :
      (o : Option DocStore) (signature : Option String) (ctx : RunContext V I)
      → a.signature ≡ signature
      → Inv o ctx
      → Outcome a o signature (step a commit ctx)
  step-commit-Outcome (some docstore) (some signature) ctx q h =
      rw (step-commit (some docstore) (some signature) ctx h.same_store q)
        (rw (commit_stage_lem a docstore signature ctx h.same_store q) (h.balanced, (refl, refl)))
  step-commit-Outcome (some docstore) none ctx q h =
      rw (step-commit (some docstore) none ctx h.same_store q) (h.balanced, h.same_store)
  step-commit-Outcome none signature ctx q h =
      rw (step-commit none signature ctx h.same_store q) (h.balanced, h.same_store)

  last :
      (o : Option DocStore) (t : Result (Unit {0}) × RunContext V I)
      → Outcome a o a.signature t
      → Outcome a o a.signature (proceed t.0 (λ _ s. (ok tt, s)) t.1)
  last o (ok u, s) h = h
  last o (err e, s) h = h

  next :
      (o : Option DocStore) (rest : RunContext V I → Result (Unit {0}) × RunContext V I)
      → ((ctx : RunContext V I) → Inv o ctx → Outcome a o a.signature (rest ctx))
      → (t : Result (Unit {0}) × RunContext V I) → Inv o t.1
      → Outcome a o a.signature (proceed t.0 (λ _. rest) t.1)
  next o rest go (ok u, s) h = go s h
  next o rest go (err e, s) h = h.same_store

  run_stages-Outcome :
      (early : List Stage) (o : Option DocStore) (ctx : RunContext V I)
      → All IsEarly early
      → Inv o ctx
      → Outcome a o a.signature (run_stages a (early ++ commit ∷ []) ctx)
  unfolding run_stages
  run_stages-Outcome [] o ctx e h =
      last o (step a commit ctx) (step-commit-Outcome o a.signature ctx refl h)
  run_stages-Outcome (s ∷ early) o ctx e h =
      next o (run_stages a (early ++ commit ∷ [])) (λ ctx h. run_stages-Outcome early o ctx e.1 h)
        (step a s ctx) (step-Inv a o s e.0 ctx h)

  -- The outcome of the engine's stages from a fresh context.
  pub stages-Outcome :
      (o : Option DocStore) (i : Option I)
      → Outcome a o a.signature (run_stages a stages (new_context o i))
  stages-Outcome o i =
      run_stages-Outcome (fetch ∷ extract ∷ embed ∷ upsert ∷ reconcile ∷ []) o (new_context o i)
        (tt, (tt, (tt, (tt, (tt, tt))))) (record { same_store = refl; balanced = refl })

  failed_store :
      (o : Option DocStore) (e : Error) (t : Result (Unit {0}) × RunContext V I)
      → Outcome a o a.signature t
      → (finished a t.0 t.1).0 ≡ err e
      → (finished a t.0 t.1).1.docstore ≡ o
  unfolding finished
  failed_store o e (ok u, ctx) h failed = cc
  failed_store o e (err e', ctx) h failed = h

  ended_store :
      (d : DocStore) (signature : String) (result : PipelineResult)
      → (t : Result (Unit {0}) × RunContext V I) → Outcome a (some d) (some signature) t
      → (finished a t.0 t.1).0 ≡ ok result
      → ((finished a t.0 t.1).1.docstore
          ≡ some (save (commit_docs a.source_id signature (finished a t.0 t.1).1.entries d).1))
        × (result.documents_ingested ≡ result.documents_changed + result.documents_skipped)
  unfolding finished
  ended_store d signature result (ok u, ctx) h ended = (h.1.0, ground (arith, h.0))
  ended_store d signature result (err e, ctx) h ended = cc

  -- The store that is handed back, from what the stages left.
  pub note_run_lem :
      (r : RunRecord) (o : Option DocStore) (d : DocStore) (signature : String)
      → o ≡ some d
      → a.signature ≡ some signature
      → note_run a r o a.signature ≡ some (record_run a.source_id r d)
  unfolding note_run
  note_run_lem r o d signature p q = ap₂ (note_run a r) p q

module _ {V I : Type 0} (a : Adapters V I) (at : String) (duration : ℕ) (d : DocStore)
    (i : Option I) (signature : String) (signed : a.signature ≡ some signature)
    (once : NodupKeys d.ledger) where
  -- If a run of the stages raises, the store keeps the document state of every source, and the
  -- newest run of the source in its ledger is a failed one with the message of the error. The run
  -- has a signature, and a store whose ledger has each source once.
  pub run_failed :
      (e : Error)
      → (run a at duration [] (some d) i).0 ≡ err e
      → (d' : DocStore) × ((run a at duration [] (some d) i).1 ≡ some d')
        × (d'.sources ≡ d.sources)
        × (last_run d' a.source_id ≡ some (record_of a at duration (err e)))
  unfolding run execute
  run_failed e failed =
      let (_, ctx) = execute a [] (some d) i in
      let noted = last_run-record_run a.source_id (record_of a at duration (err e)) d once in
      (
        record_run a.source_id (record_of a at duration (err e)) d,
        ap (λ r. note_run a (record_of a at duration r) ctx.docstore a.signature) failed
            ∙ note_run_lem a (record_of a at duration (err e)) ctx.docstore d signature
                (failed_store a (some d) e (run_stages a stages (new_context (some d) i))
                  (stages-Outcome a (some d) i) failed)
                signed,
        noted.1,
        noted.0,
      )

  -- If a run of the stages ends, then its counts of changed and skipped documents add up to that of
  -- the documents, the store answers for the source what the run has noted of each document, under
  -- the run's signature alone, and for every other source what it answered before, and the newest
  -- run of the source in the ledger has the result. The run has a signature, and a store whose
  -- ledger has each source once.
  pub run_ended :
      (result : PipelineResult)
      → (run a at duration [] (some d) i).0 ≡ ok result
      → (result.documents_ingested ≡ result.documents_changed + result.documents_skipped)
        × ((d' : DocStore) × ((run a at duration [] (some d) i).1 ≡ some d')
            × ((source_id signature' uri : String)
                → entry a.repr d' source_id signature' uri ≡ (
                    if source_id == a.source_id
                    then (if signature == signature'
                        then lookup uri (execute a [] (some d) i).1.entries
                        else none)
                    else entry a.repr d source_id signature' uri))
            × (last_run d' a.source_id ≡ some (record_of a at duration (ok result))))
  unfolding run execute
  run_ended result ended =
      let (_, ctx) = execute a [] (some d) i in
      let committed = save (commit_docs a.source_id signature ctx.entries d).1 in
      let r = record_of a at duration (ok result) in
      let (left, balanced) =
        ended_store a d signature result (run_stages a stages (new_context (some d) i))
          (subst (λ s. Outcome a (some d) s (run_stages a stages (new_context (some d) i))) signed
            (stages-Outcome a (some d) i))
          ended in
      (
        balanced,
        (
          record_run a.source_id r committed,
          ap (λ r. note_run a (record_of a at duration r) ctx.docstore a.signature) ended
              ∙ note_run_lem a r ctx.docstore committed signature left signed,
          λ source_id signature' uri.
              unfold record_run save entry in
              entry-commit a.repr d a.source_id signature ctx.entries source_id signature' uri,
          (last_run-record_run a.source_id r committed
              (save-commit_ledger a.source_id signature ctx.entries d once)).0,
        ),
      )
