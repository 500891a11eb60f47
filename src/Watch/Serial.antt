-- ===== src/Watch/Serial.antt =====
-- Runs one after the other keep what each has committed.
use alvis.Base.{String, ◌≡◌, ◌≢◌, refl, ◌∙◌, some, List, [], ◌∷◌, ◌++◌}
use alvis.Base.{All, string_eq}
use alvis.DocStore.{StateFile, open_store}
use alvis.Pipeline.Engine.Held.{held, held-run}
use alvis.Watch.{Engine, run_opened, run_engine, run_serially}

module _ {V I : Type 0} where
  -- The engine has a signature and is of another source.
  abbrev pub IsElsewhere : String → Engine V I → Type 0
  IsElsewhere s e =
      ((signature : String) × (e.adapters.signature ≡ some signature)) × (s ≢ e.adapters.source_id)

  run_engine-held :
      (e : Engine V I) (s : String) (file : StateFile)
      → IsElsewhere s e
      → held s (run_engine e file).1 ≡ held s file
  unfolding run_engine run_opened
  run_engine-held e s file ((signature, signed), other) =
      held-run e.adapters signature signed e.at e.duration e.indexer (open_store file) s other
        e.problems

  run_serially-held :
      (engines : List (Engine V I)) (s : String) (file : StateFile)
      → All (IsElsewhere s) engines
      → held s (run_serially engines file).1 ≡ held s file
  unfolding run_serially
  run_serially-held [] s file h = refl
  run_serially-held (e ∷ engines) s file h =
      run_serially-held engines s (run_engine e file).1 h.1 ∙ run_engine-held e s file h.0

  -- If the pipelines of a tick run one after the other, then what the state file holds of a source
  -- after the tick is what the run of its pipeline has left, started on the file that the pipelines
  -- before it left. The pipelines after it have signatures, and other sources.
  pub held-run_serially :
      (before : List (Engine V I)) (e : Engine V I) (after : List (Engine V I)) (file : StateFile)
      → All (IsElsewhere e.adapters.source_id) after
      → held e.adapters.source_id (run_serially (before ++ e ∷ after) file).1
        ≡ held e.adapters.source_id (run_engine e (run_serially before file).1).1
  unfolding run_serially
  held-run_serially [] e after file h =
      run_serially-held after e.adapters.source_id (run_engine e file).1 h
  held-run_serially (b ∷ before) e after file h =
      held-run_serially before e after (run_engine b file).1 h
