-- ===== src/Pipeline/Stages/Write/Idle.antt =====
-- `EmbedStage`, `UpsertStage`, `ReconcileStage` and `CommitStage` with nothing pending.
use alvis.Base.{String, ℕ, ◌≡◌, refl, ap, ◌∙◌, Bool, true, false, Option, none, some}
use alvis.Base.{if◌then◌else◌, is_some, ◌&&◌}
use mathlib.Core.Bool.{false≢true}
use alvis.Errors.{Result, ok}
use alvis.DocStore.{DocStore}
use alvis.Pipeline.Context.{Adapters, RunContext}
use alvis.Pipeline.Idle.{Idle, IdleStep, Reconciles}
use alvis.Pipeline.Stages.Write.{
  has_pending, is_empty, reconcile_stage, on_index, commit_stage, commit_to,
}

module _ {V I : Type 0} (a : Adapters V I) where
  and_false : (b : Bool) → (b && false) ≡ false
  and_false true = refl
  and_false false = refl

  pub has_pending-Idle : (n : ℕ) (ctx : RunContext V I) → Idle n ctx → has_pending a ctx ≡ false
  unfolding has_pending is_empty
  has_pending-Idle n ctx h =
      ap (λ pending. is_some ctx.indexer && (if is_empty pending then false else true))
        h.pending_empty
      ∙ and_false (is_some ctx.indexer)

  on_index-IdleStep :
      (n : ℕ) (ctx : RunContext V I) (act : I → Result (Unit {0}) × I)
      → ((i : I) → (act i).0 ≡ ok tt)
      → (o : Option I) → is_some o ≡ true
      → Idle n ctx
      → IdleStep n (on_index a act o ctx)
  unfolding on_index IdleStep
  on_index-IdleStep n ctx act h none e idle = absurd (false≢true e)
  on_index-IdleStep n ctx act h (some i) e idle = (
    h i,
    record {
      documents_all = idle.documents_all;
      skipped_all = idle.skipped_all;
      changed_zero = idle.changed_zero;
      indexed_zero = idle.indexed_zero;
      hits_zero = idle.hits_zero;
      misses_zero = idle.misses_zero;
      pending_empty = idle.pending_empty;
      artifacts_empty = idle.artifacts_empty;
    },
  )

  commit_to-IdleStep :
      (n : ℕ) (ctx : RunContext V I) (o : Option DocStore) (signature : Option String)
      → is_some o && is_some signature ≡ true
      → Idle n ctx
      → IdleStep n (commit_to a o signature ctx)
  unfolding commit_to IdleStep
  commit_to-IdleStep n ctx (some d) (some signature) e idle = (
    refl,
    record {
      documents_all = idle.documents_all;
      skipped_all = idle.skipped_all;
      changed_zero = idle.changed_zero;
      indexed_zero = idle.indexed_zero;
      hits_zero = idle.hits_zero;
      misses_zero = idle.misses_zero;
      pending_empty = idle.pending_empty;
      artifacts_empty = idle.artifacts_empty;
    },
  )
  commit_to-IdleStep n ctx none signature e idle = absurd (false≢true e)
  commit_to-IdleStep n ctx (some d) none e idle = absurd (false≢true e)

  pub reconcile_stage-IdleStep :
      Reconciles a
      → (n : ℕ) (ctx : RunContext V I) → is_some ctx.indexer ≡ true
      → Idle n ctx
      → IdleStep n (reconcile_stage a ctx)
  unfolding reconcile_stage
  reconcile_stage-IdleStep forgets n ctx =
      on_index-IdleStep n ctx _ (forgets ctx.current) ctx.indexer

  pub commit_stage-IdleStep :
      (n : ℕ) (ctx : RunContext V I)
      → is_some ctx.docstore && is_some a.signature ≡ true
      → Idle n ctx
      → IdleStep n (commit_stage a ctx)
  unfolding commit_stage
  commit_stage-IdleStep n ctx = commit_to-IdleStep n ctx ctx.docstore a.signature
