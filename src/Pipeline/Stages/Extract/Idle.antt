-- ===== src/Pipeline/Stages/Extract/Idle.antt =====
-- `ExtractStage` without artifacts.
use alvis.Base.{ℕ, refl, sym}
use mathlib.Core.Path.{subst}
use alvis.Pipeline.Context.{Adapters, RunContext}
use alvis.Pipeline.Idle.{Idle, IdleStep}
use alvis.Pipeline.Stages.Extract.{extract_stage, extract_all}

module _ {V I : Type 0} (a : Adapters V I) where
  pub extract_stage-IdleStep :
      (n : ℕ) (ctx : RunContext V I) → Idle n ctx → IdleStep n (extract_stage a ctx)
  unfolding extract_stage extract_all IdleStep
  extract_stage-IdleStep n ctx h =
      subst (λ artifacts. IdleStep n (extract_all a artifacts ctx)) (sym h.artifacts_empty)
        (refl, h)
