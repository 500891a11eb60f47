-- ===== src/Pipeline/Invariant.antt =====
-- What every stage before the commit keeps, whether it raises or not.
use alvis.Base.{◌+◌, ◌≡◌, Option}
use alvis.DocStore.{DocStore}
use alvis.Pipeline.Context.{RunContext}

-- The store is the one that the run began with, and every document was counted as changed or as
-- skipped.
pub record Inv {V I : Type 0} (d : Option DocStore) (ctx : RunContext V I) : Type 0 where
  pub same_store : ctx.docstore ≡ d
  pub balanced : ctx.documents ≡ ctx.changed + ctx.skipped
