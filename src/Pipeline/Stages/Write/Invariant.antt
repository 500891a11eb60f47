-- ===== src/Pipeline/Stages/Write/Invariant.antt =====
-- The stages that embed and write keep the invariant.
use alvis.Base.{String, ◌≡◌, Option, none, some, List}
use mathlib.Core.Path.{ap₂}
use alvis.Models.{Chunk}
use alvis.Errors.{Result, ok, err}
use alvis.DocStore.{DocStore, commit, save}
use alvis.Pipeline.Context.{Adapters, RunContext}
use alvis.Pipeline.Invariant.{Inv}
use alvis.Pipeline.Stages.Write.{
  embed_stage, embedded, upsert_stage, upsert_zipped, upsert_items, zip_items, on_index,
  reconcile_stage, commit_stage, commit_to,
}

module _ {V I : Type 0} (a : Adapters V I) (d : Option DocStore) where
  embedded-Inv :
      (r : Result (List V)) (ctx : RunContext V I) → Inv d ctx → Inv d (embedded a r ctx).1
  unfolding embedded
  embedded-Inv (ok vectors) ctx h = record { same_store = h.same_store; balanced = h.balanced }
  embedded-Inv (err e) ctx h = h

  pub embed_stage-Inv : (ctx : RunContext V I) → Inv d ctx → Inv d (embed_stage a ctx).1
  unfolding embed_stage
  embed_stage-Inv ctx h =
      embedded-Inv _ _ (record { same_store = h.same_store; balanced = h.balanced })

  on_index-Inv :
      (act : I → Result (Unit {0}) × I) (o : Option I) (ctx : RunContext V I)
      → Inv d ctx
      → Inv d (on_index a act o ctx).1
  unfolding on_index
  on_index-Inv act none ctx h = h
  on_index-Inv act (some i) ctx h = record { same_store = h.same_store; balanced = h.balanced }

  upsert_zipped-Inv :
      (ctx : RunContext V I) (r : Result (List (Chunk × V × String)))
      → Inv d ctx
      → Inv d (upsert_zipped a ctx r).1
  unfolding upsert_zipped
  upsert_zipped-Inv ctx (err e) h = h
  upsert_zipped-Inv ctx (ok items) h = on_index-Inv (upsert_items a items) ctx.indexer ctx h

  pub upsert_stage-Inv : (ctx : RunContext V I) → Inv d ctx → Inv d (upsert_stage a ctx).1
  unfolding upsert_stage
  upsert_stage-Inv ctx h = upsert_zipped-Inv ctx (zip_items ctx.pending ctx.vectors) h

  pub reconcile_stage-Inv : (ctx : RunContext V I) → Inv d ctx → Inv d (reconcile_stage a ctx).1
  unfolding reconcile_stage
  reconcile_stage-Inv ctx h = on_index-Inv (a.reconcile a.source_id ctx.current) ctx.indexer ctx h

module _ {V I : Type 0} (a : Adapters V I) where
  -- With a store and a signature the commit stage does not raise.
  pub commit_stage_lem :
      (docstore : DocStore) (signature : String) (ctx : RunContext V I)
      → ctx.docstore ≡ some docstore
      → a.signature ≡ some signature
      → commit_stage a ctx ≡ (
        ok tt,
        record ctx {
          deleted = (commit a.source_id signature ctx.entries docstore).0;
          docstore = some (save (commit a.source_id signature ctx.entries docstore).1);
        },
      )
  unfolding commit_stage
  commit_stage_lem docstore signature ctx p q = ap₂ (λ o s. commit_to a o s ctx) p q
