-- ===== src/Pipeline/Engine/Idle.antt =====
-- A run over a listing of which the store holds every fingerprint.
use alvis.Base.{String, ℕ, ◌≡◌, refl, Option, some, List, [], ◌∷◌}
use alvis.Base.{if_cases, is_some, ◌&&◌, All, length}
use alvis.Models.{DocumentMeta}
use alvis.Errors.{Result, ok, err, proceed}
use alvis.DocStore.{DocStore}
use alvis.Pipeline.Context.{Adapters, RunContext, new_context}
use alvis.Pipeline.Idle.{Idle, IdleStep, Alike, Reconciles, skipped-IdleStep}
use alvis.Pipeline.Stages.Fetch.{fetch_stage}
use alvis.Pipeline.Stages.Fetch.Idle.{fetch_stage-IdleStep}
use alvis.Pipeline.Stages.Extract.Idle.{extract_stage-IdleStep}
use alvis.Pipeline.Stages.Write.{has_pending, reconcile_stage, commit_stage}
use alvis.Pipeline.Stages.Write.Idle.{
  has_pending-Idle, reconcile_stage-IdleStep, commit_stage-IdleStep,
}
use alvis.Pipeline.Engine.{
  Stage, fetch, extract, embed, upsert, reconcile, commit, stages, step, run_stages, run_stage,
  applicable, execute, finished, run, PipelineResult,
}

module _ {V I : Type 0} (a : Adapters V I) where
  -- Every stage but the first.
  abbrev IsLater : Stage → Type 0
  IsLater fetch = ⊥
  IsLater _ = Unit {0}

  step-IdleStep :
      Reconciles a
      → (s : Stage) → IsLater s
      → (n : ℕ) (ctx : RunContext V I) → Idle n ctx
      → IdleStep n (step a s ctx)
  unfolding step applicable run_stage
  step-IdleStep forgets fetch e n ctx h = absurd e
  step-IdleStep forgets extract e n ctx h = extract_stage-IdleStep a n ctx h
  step-IdleStep forgets embed e n ctx h =
      skipped-IdleStep n ctx (has_pending a ctx) _ h (has_pending-Idle a n ctx h)
  step-IdleStep forgets upsert e n ctx h =
      skipped-IdleStep n ctx (has_pending a ctx) _ h (has_pending-Idle a n ctx h)
  step-IdleStep forgets reconcile e n ctx h =
      if_cases (IdleStep n) (is_some ctx.indexer) (reconcile_stage a ctx) (ok tt, ctx)
        (λ e. reconcile_stage-IdleStep a forgets n ctx e h) (λ _. unfold IdleStep in (refl, h))
  step-IdleStep forgets commit e n ctx h =
      if_cases (IdleStep n) (is_some ctx.docstore && is_some a.signature) (commit_stage a ctx)
        (ok tt, ctx) (λ e. commit_stage-IdleStep a n ctx e h) (λ _. unfold IdleStep in (refl, h))

  proceed-IdleStep :
      (n : ℕ) (rest : RunContext V I → Result (Unit {0}) × RunContext V I)
      → (t : Result (Unit {0}) × RunContext V I) → IdleStep n t
      → ((ctx : RunContext V I) → Idle n ctx → IdleStep n (rest ctx))
      → IdleStep n (proceed t.0 (λ _. rest) t.1)
  unfolding IdleStep
  proceed-IdleStep n rest (ok u, ctx) h go = go ctx h.1
  proceed-IdleStep n rest (err e, ctx) h go = cc

  run_stages-IdleStep :
      Reconciles a
      → (later : List Stage) → All IsLater later
      → (n : ℕ) (ctx : RunContext V I) → Idle n ctx
      → IdleStep n (run_stages a later ctx)
  unfolding run_stages
  run_stages-IdleStep forgets [] e n ctx h = unfold IdleStep in (refl, h)
  run_stages-IdleStep forgets (s ∷ later) e n ctx h =
      proceed-IdleStep n (run_stages a later) (step a s ctx) (step-IdleStep forgets s e.0 n ctx h)
        (run_stages-IdleStep forgets later e.1 n)

  finished_idle :
      (n : ℕ) (t : Result (Unit {0}) × RunContext V I)
      → IdleStep n t
      → (result : PipelineResult) × ((finished a t.0 t.1).0 ≡ ok result)
        × (result.documents_ingested ≡ n)
        × (result.documents_skipped ≡ n)
        × (result.documents_changed ≡ 0)
        × (result.chunks_indexed ≡ 0)
  unfolding finished IdleStep
  finished_idle n (ok u, ctx) (e, h) =
      (_, refl, h.documents_all, h.skipped_all, h.changed_zero, h.indexed_zero)
  finished_idle n (err e', ctx) (e, h) = cc

  -- If the store holds the fingerprint of every document of the listing, then a run ends, reports each
  -- document as skipped and none as changed, and indexes no chunk. The run has a signature, and
  -- the index forgets without an error.
  pub run-Alike :
      (at : String) (duration : ℕ) (d : DocStore) (i : Option I)
      → (signature : String) (metas : List DocumentMeta) → a.signature ≡ some signature
      → a.list_documents ≡ some (ok metas)
      → Reconciles a
      → All (Alike a d signature) metas
      → (result : PipelineResult) × ((run a at duration [] (some d) i).0 ≡ ok result)
        × (result.documents_ingested ≡ length metas)
        × (result.documents_skipped ≡ length metas)
        × (result.documents_changed ≡ 0)
        × (result.chunks_indexed ≡ 0)
  unfolding run execute run_stages step applicable run_stage
  run-Alike at duration d i signature metas signed listing forgets alike =
      finished_idle (length metas) (run_stages a stages (new_context (some d) i)) (
        proceed-IdleStep (length metas)
          (run_stages a (extract ∷ embed ∷ upsert ∷ reconcile ∷ commit ∷ []))
          (fetch_stage a (new_context (some d) i))
          (fetch_stage-IdleStep a d signature metas i signed listing alike)
          (run_stages-IdleStep forgets (extract ∷ embed ∷ upsert ∷ reconcile ∷ commit ∷ [])
            (tt, (tt, (tt, (tt, (tt, tt))))) (length metas)))
