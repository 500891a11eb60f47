-- ===== src/Pipeline/Engine/Held.antt =====
-- What a run changes in the state file: the source's own entry alone.
use alvis.Base.{String, ℕ, ◌≡◌, ◌≢◌, refl, ap, ◌∙◌, string_eq, Option, none, some, List, [], ◌∷◌}
use mathlib.Core.Path.{subst}
use alvis.Base.Dict.{lookup}
use alvis.Value.{Fields}
use alvis.Errors.{Result, ok, err}
use alvis.DocStore.{DocStore, RunRecord, StateFile, open_store, save, commit as commit_docs}
use alvis.DocStore.Commit.{lookup-save-commit_ne, sources-record_run}
use alvis.Pipeline.Context.{Adapters, RunContext, new_context}
use alvis.Pipeline.Engine.{run, execute, finished, note_run, record_of, stages, run_stages}
use alvis.Pipeline.Engine.Commit.{Outcome, stages-Outcome, note_run_lem}

-- The file after a run.
abbrev pub file_left : StateFile → Option DocStore → StateFile
file_left file none = file
file_left file (some d) = d.file

-- What a store that is opened on the file holds of the source.
abbrev pub held : String → StateFile → Option Fields
held s file = lookup s (open_store file).sources

module _ {V I : Type 0} (a : Adapters V I) (signature : String)
    (signed : a.signature ≡ some signature) (at : String) (duration : ℕ) (s : String)
    (other : s ≢ a.source_id) where
  left_held :
      (r : RunRecord) (file : StateFile) (o : Option DocStore) (d : DocStore)
      → o ≡ some d
      → held s (file_left file (note_run a r o a.signature)) ≡ lookup s d.sources
  left_held r file o d e =
      rw (note_run_lem a r o d signature e signed)
        (ap (lookup s) (sources-record_run a.source_id r d))

  held-finished :
      (d : DocStore) (t : Result (Unit {0}) × RunContext V I)
      → Outcome a (some d) (some signature) t
      → held s (
          file_left d.file (
            note_run a
              (record_of a at duration (finished a t.0 t.1).0)
              (finished a t.0 t.1).1.docstore
              a.signature))
        ≡ lookup s d.sources
  unfolding finished
  held-finished d (err e, ctx) h = left_held _ d.file ctx.docstore d h
  held-finished d (ok u, ctx) h =
      left_held _ d.file ctx.docstore (save (commit_docs a.source_id signature ctx.entries d).1)
        h.1.0
      ∙ lookup-save-commit_ne a.source_id signature s ctx.entries d other

module _ {V I : Type 0} (a : Adapters V I) (signature : String)
    (signed : a.signature ≡ some signature) (at : String) (duration : ℕ) (i : Option I)
    (d : DocStore) (s : String) (other : s ≢ a.source_id) where
  -- A run with a signature leaves in the file, of every other source, what its store held.
  pub held-run :
      (problems : List String)
      → held s (file_left d.file (run a at duration problems (some d) i).1) ≡ lookup s d.sources
  unfolding run execute
  held-run (p ∷ problems) =
      left_held a signature signed at duration s other _ d.file (some d) d refl
  held-run [] =
      held-finished a signature signed at duration s other d
        (run_stages a stages (new_context (some d) i))
        (subst (λ o. Outcome a (some d) o (run_stages a stages (new_context (some d) i))) signed
          (stages-Outcome a (some d) i))
