-- ===== src/Pipeline/Stages/Write/Entries.antt =====
-- What embedding, upserting, reconciling and committing leave of the noted entries.
use alvis.Base.{String, ◌≡◌, refl, Option, none, some, List}
use alvis.Base.{string_eq}
use alvis.Models.{Chunk}
use alvis.Errors.{Result, ok, err}
use alvis.DocStore.{DocStore}
use alvis.Pipeline.Context.{Adapters, RunContext}
use alvis.Pipeline.Stages.Write.{
  embed_stage, embedded, upsert_stage, upsert_zipped, upsert_items, on_index, reconcile_stage,
  commit_stage, commit_to,
}

module _ {V I : Type 0} (a : Adapters V I) where
  pub entries-embed_stage : (ctx : RunContext V I) → (embed_stage a ctx).1.entries ≡ ctx.entries
  unfolding embed_stage
  entries-embed_stage ctx = entries-embedded _ _
    where
      entries-embedded :
          (r : Result (List V)) (ctx : RunContext V I) → (embedded a r ctx).1.entries ≡ ctx.entries
      entries-embedded (ok vectors) ctx = refl
      entries-embedded (err e) ctx = refl

  entries-on_index :
      (act : I → Result (Unit {0}) × I) (o : Option I) (ctx : RunContext V I)
      → (on_index a act o ctx).1.entries ≡ ctx.entries
  unfolding on_index
  entries-on_index act none ctx = refl
  entries-on_index act (some i) ctx = refl

  pub entries-upsert_stage : (ctx : RunContext V I) → (upsert_stage a ctx).1.entries ≡ ctx.entries
  unfolding upsert_stage upsert_zipped
  entries-upsert_stage ctx = entries-upsert_zipped _
    where
      entries-upsert_zipped :
          (r : Result (List (Chunk × V × String))) → (upsert_zipped a ctx r).1.entries ≡ ctx.entries
      entries-upsert_zipped (err e) = refl
      entries-upsert_zipped (ok items) = entries-on_index (upsert_items a items) ctx.indexer ctx

  pub entries-reconcile_stage :
      (ctx : RunContext V I) → (reconcile_stage a ctx).1.entries ≡ ctx.entries
  unfolding reconcile_stage
  entries-reconcile_stage ctx =
      entries-on_index (a.reconcile a.source_id ctx.current) ctx.indexer ctx

  pub entries-commit_stage : (ctx : RunContext V I) → (commit_stage a ctx).1.entries ≡ ctx.entries
  unfolding commit_stage commit_to
  entries-commit_stage ctx = entries-commit_to ctx.docstore a.signature
    where
      entries-commit_to :
          (o : Option DocStore) (signature : Option String)
          → (commit_to a o signature ctx).1.entries ≡ ctx.entries
      entries-commit_to (some d) (some signature) = refl
      entries-commit_to none signature = refl
      entries-commit_to (some d) none = refl
