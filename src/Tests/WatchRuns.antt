-- ===== src/Tests/WatchRuns.antt =====
-- Pipelines that share a state file: one after the other, together, and in the watch loop.
use alvis.Base.{
  ℕ, zero, suc, ◌≡◌, refl, none, some, List, [], ◌∷◌, ◌++◌, string_eq, ==→ne, arith, All, length,
  true,
}
use alvis.Base.{is_some}
use alvis.Errors.{source_error, ok, err}
use alvis.DocStore.{missing, entry, open_store}
use alvis.Index.Memory.{MemoryIndex, empty_index}
use alvis.Pipeline.Context.{Adapters}
use alvis.Pipeline.Engine.{run}
use alvis.Pipeline.Engine.Held.{held}
use alvis.Watch.{
  Engine, Element, Event, opens, finishes, World, run_opened, run_engine, run_serially, happen_all,
  watch,
}
use alvis.Watch.Overlap.{held-happen_all}
use alvis.Watch.Serial.{held-run_serially}
use alvis.Watch.Ticks.{watch_goes_on}
use alvis.Tests.PipelineRuns.{adapters}

engine : Adapters (List ℕ) (MemoryIndex ℕ) → Engine (List ℕ) (MemoryIndex ℕ)
engine a = record {
  adapters = a;
  problems = [];
  at = "t";
  duration = 1;
  indexer = some empty_index;
}

docs : Engine (List ℕ) (MemoryIndex ℕ)
unfolding engine adapters
docs = engine adapters

wiki : Engine (List ℕ) (MemoryIndex ℕ)
unfolding engine adapters
wiki = engine (record adapters { source_id = "fs:wiki" })

both : ℕ → Engine (List ℕ) (MemoryIndex ℕ)
unfolding docs wiki
both zero = docs
both (suc n) = wiki

start : World
start = record { file = missing; opened = λ i. none }

together : List Event
together = opens 0 ∷ finishes 0 ∷ []

-- The pipeline of "fs:docs" has committed, and the run that overlaps it takes that back.
lost :
    (is_some (held "fs:docs" (happen_all both (opens 1 ∷ opens 0 ∷ finishes 0 ∷ []) start).file)
      ≡ true)
    × (held "fs:docs"
          (happen_all both (opens 1 ∷ opens 0 ∷ finishes 0 ∷ finishes 1 ∷ []) start).file
        ≡ none)
unfolding happen_all both start open_store entry string_eq
lost = (refl, refl)

held-happen_all_example :
    held "fs:docs" (happen_all both (opens 1 ∷ together ++ finishes 1 ∷ []) start).file
    ≡ held "fs:docs" start.file
unfolding both together string_eq
held-happen_all_example =
    held-happen_all both 1 "s1" "fs:docs" together start refl (==→ne "fs:docs" "fs:wiki" refl)
      (omega arith, (omega arith, tt))

held-run_serially_example :
    held "fs:docs" (run_serially (docs ∷ wiki ∷ []) missing).1
    ≡ held "fs:docs"
        (run_engine docs (run_serially {V = List ℕ} {I = MemoryIndex ℕ} [] missing).1).1
unfolding docs wiki string_eq
held-run_serially_example =
    held-run_serially [] docs (wiki ∷ []) missing
      ((("s1", refl), ==→ne "fs:docs" "fs:wiki" refl), tt)

-- A source without documents, and one that is down.
quiet : Engine (List ℕ) (MemoryIndex ℕ)
unfolding engine adapters
quiet = engine (record adapters { list_documents = none; fetch = λ uris. ok [] })

down : Engine (List ℕ) (MemoryIndex ℕ)
unfolding engine adapters
down = engine (record adapters { list_documents = none; fetch = λ uris. err (source_error "down") })

watch_goes_on_example :
    (yielded : List (List Element)) × (watch (λ n. "60") 2 60 (λ n. quiet ∷ down ∷ []) 1000 missing
      ≡ (yielded, none))
    × (length yielded ≡ 1000)
    × All (λ tick. length tick ≡ 2) yielded
unfolding quiet down run_opened run
watch_goes_on_example =
    watch_goes_on 2 (λ n. quiet ∷ down ∷ []) (λ n. refl) (λ n d. (tt, (tt, tt))) (λ n. "60") 60 1000
      missing (omega arith) (omega arith)
