-- ===== src/Watch.antt =====
-- pipeline/runner.py: the watch loop over pipelines that share a state file: its ticks where one runs
-- after the other, under `max_parallel=1`, and the file where runs overlap in any way.
pub mod Serial
pub mod Overlap
pub mod Ticks
use alvis.Base.{
  String, ◌<>◌, ℕ, zero, suc, Bool, true, false, Option, none, some, List, [], ◌∷◌, map,
}
use alvis.Base.{eqb, if◌then◌else◌}
use alvis.Errors.{Error, pipeline_error, source_error, config_error, value_error, other_error}
use alvis.Errors.{Result, ok, err}
use alvis.DocStore.{DocStore, StateFile, open_store}
use alvis.Pipeline.Context.{Adapters}
use alvis.Pipeline.Engine.{PipelineResult, run}
use alvis.Pipeline.Engine.Held.{file_left}

-- An engine with what its next run meets: the problems of its configuration, the clock, its index.
pub record Engine (V I : Type 0) : Type 0 where
  pub adapters : Adapters V I
  pub problems : List String
  pub at : String
  pub duration : ℕ
  pub indexer : Option I

-- What a tick yields for an engine: the result, or the exception as an element.
pub data Element : Type 0 where
  ended : PipelineResult → Element
  failed : Error → Element

-- The `except` clause of `_run`: what it does not name goes on.
unfoldable pub soften : Result PipelineResult → Result Element
soften (ok result) = ok (ended result)
soften (err (pipeline_error m)) = ok (failed (pipeline_error m))
soften (err (source_error m)) = ok (failed (source_error m))
soften (err (config_error m)) = ok (failed (config_error m))
soften (err (value_error m)) = err (value_error m)
soften (err (other_error m)) = err (other_error m)

add_element : Result Element → Result (List Element) → Result (List Element)
add_element (err e) rest = err e
add_element (ok x) (err e) = err e
add_element (ok x) (ok xs) = ok (x ∷ xs)

-- `asyncio.gather`: the elements in the order of the engines, or the first exception.
unfoldable pub gather : List (Result Element) → Result (List Element)
unfolding add_element
gather [] = ok []
gather (r ∷ rs) = add_element r (gather rs)

-- An exception ends the loop.
go_on :
    Result (List Element) → List (List Element) × Option Error → List (List Element) × Option Error
go_on (err e) rest = ([], some e)
go_on (ok tick) (ticks, raised) = (tick ∷ ticks, raised)

-- What pipelines that run together share, and the stores that they have opened.
pub record World : Type 0 where
  pub file : StateFile
  pub opened : ℕ → Option DocStore

-- A run opens its store when it starts; what it saves when it ends is one event.
pub data Event : Type 0 where
  opens finishes : ℕ → Event

set_opened : ℕ → Option DocStore → World → World
set_opened i o w = record w { opened = λ j. if eqb j i then o else w.opened j }

module _ {V I : Type 0} where
  -- The run of an engine with a store that has been opened, which ends with the file as it saves it.
  unfoldable pub run_opened : Engine V I → DocStore → Result PipelineResult × StateFile
  unfolding run
  run_opened e d =
      let (r, left, index) = run e.adapters e.at e.duration e.problems (some d) e.indexer in
      (r, file_left d.file left)

  -- `_run`: each run opens the state file for itself.
  unfoldable pub run_engine : Engine V I → StateFile → Result Element × StateFile
  unfolding run_opened soften open_store
  run_engine e file = let (r, left) = run_opened e (open_store file) in (soften r, left)

  -- The runs of a tick under `max_parallel=1`, one after the other; each is made whatever the others
  -- raise.
  unfoldable pub run_serially : List (Engine V I) → StateFile → List (Result Element) × StateFile
  unfolding run_engine
  run_serially [] file = ([], file)
  run_serially (e ∷ engines) file =
      let (r, file') = run_engine e file in
      let (rs, file'') = run_serially engines file' in (r ∷ rs, file'')

  -- `_tick_once` under `max_parallel=1`
  unfoldable pub tick_once : List (Engine V I) → StateFile → Result (List Element) × StateFile
  unfolding run_serially gather
  tick_once engines file = let (rs, file') = run_serially engines file in (gather rs, file')

  -- Some first ticks of the loop under `max_parallel=1`, each over the engines as they are by then.
  ticks_from : (ℕ → List (Engine V I)) → ℕ → ℕ → StateFile → List (List Element) × Option Error
  unfolding tick_once go_on
  ticks_from engines_at n zero file = ([], none)
  ticks_from engines_at n (suc left) file =
      let (r, file') = tick_once (engines_at n) file in
      go_on r (ticks_from engines_at (suc n) left file')

  -- `watch_async` under `max_parallel=1`, of so many configurations, whose engines change with the
  -- ticks, up to a number of ticks: the ticks that it yields, and what it raises. The function writes
  -- the interval out.
  unfoldable pub watch :
      (ℕ → String)
      → ℕ
      → ℕ
      → (ℕ → List (Engine V I))
      → ℕ
      → StateFile
      → List (List Element) × Option Error
  unfolding ticks_from
  watch show configs interval engines_at ticks file =
      if eqb configs 0
      then ([], none)
      else if eqb interval 0
      then ([], some (config_error ("watch interval must be > 0, got " <> show interval)))
      else ticks_from engines_at 0 ticks file

  finish_run : Engine V I → ℕ → Option DocStore → World → World
  unfolding run_opened set_opened
  finish_run e i none w = w
  finish_run e i (some d) w = set_opened i none (record w { file = (run_opened e d).1 })

  unfoldable pub happen : (ℕ → Engine V I) → Event → World → World
  unfolding finish_run set_opened open_store
  happen engines (opens i) w = set_opened i (some (open_store w.file)) w
  happen engines (finishes i) w = finish_run (engines i) i (w.opened i) w

  unfoldable pub happen_all : (ℕ → Engine V I) → List Event → World → World
  unfolding happen
  happen_all engines [] w = w
  happen_all engines (e ∷ events) w = happen_all engines events (happen engines e w)
