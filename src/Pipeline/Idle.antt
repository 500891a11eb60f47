-- ===== src/Pipeline/Idle.antt =====
-- Runs that have nothing to process: what the stages keep.
use alvis.Base.{String, ℕ, ◌≡◌, ◌≢◌, refl, sym, Bool, true, false, none, []}
use alvis.Base.{if◌then◌else◌}
use mathlib.Core.Bool.{false≢true}
use alvis.Base.Dict.{Dict}
use alvis.Models.{DocumentMeta}
use alvis.Errors.{Result, ok}
use alvis.DocStore.{DocStore, entry}
use alvis.Pipeline.Context.{Adapters, RunContext}
use alvis.Pipeline.Stages.Fetch.{listed_alike}

-- The store holds the fingerprint of the listed document.
abbrev pub Alike : {V I : Type 0} → Adapters V I → DocStore → String → DocumentMeta → Type 0
Alike a d signature m = listed_alike (entry a.repr d a.source_id signature m.uri) m ≢ none

-- Of `n` documents all are skipped, and there is nothing to process or to write.
pub record Idle {V I : Type 0} (n : ℕ) (ctx : RunContext V I) : Type 0 where
  pub documents_all : ctx.documents ≡ n
  pub skipped_all : ctx.skipped ≡ n
  pub changed_zero : ctx.changed ≡ 0
  pub indexed_zero : ctx.indexed ≡ 0
  pub hits_zero : ctx.embed_cache_hits ≡ 0
  pub misses_zero : ctx.embed_cache_misses ≡ 0
  pub pending_empty : ctx.pending ≡ []
  pub artifacts_empty : ctx.artifacts ≡ []

-- The index forgets without an error.
abbrev pub Reconciles : {V I : Type 0} → Adapters V I → Type 0
Reconciles {V} {I} a =
    (current : Dict String String) (i : I) → (a.reconcile a.source_id current i).0 ≡ ok tt

unfoldable pub IdleStep : {V I : Type 0} → ℕ → Result (Unit {0}) × RunContext V I → Type 0
IdleStep n (r, ctx) = (r ≡ ok tt) × Idle n ctx

module _ {V I : Type 0} where
  pub skipped-IdleStep :
      (n : ℕ) (ctx : RunContext V I) (p : Bool) (act : Result (Unit {0}) × RunContext V I)
      → Idle n ctx
      → p ≡ false
      → IdleStep n (if p then act else (ok tt, ctx))
  unfolding IdleStep
  skipped-IdleStep n ctx false act h e = (refl, h)
  skipped-IdleStep n ctx true act h e = absurd (false≢true (sym e))
