-- ===== src/Watch/Overlap.antt =====
-- Runs that overlap: the last to finish writes back what it read when it started.
use alvis.Base.{String, ℕ, ◌≡◌, ◌≢◌, Option, none, some, List, [], ◌∷◌, ◌++◌, arith}
use alvis.Base.{string_eq, All}
use alvis.Base.Dict.{lookup}
use alvis.DocStore.{DocStore, open_store}
use alvis.Pipeline.Engine.Held.{held, held-run}
use alvis.Watch.{
  Engine, World, Event, opens, finishes, run_opened, set_opened, finish_run, happen, happen_all,
}

-- The event is one of another run.
abbrev pub IsOther : ℕ → Event → Type 0
IsOther i (opens j) = i ≢ j
IsOther i (finishes j) = i ≢ j

module _ {V I : Type 0} (engines : ℕ → Engine V I) (i : ℕ) (d : DocStore) where
  finish_run-opened :
      (e : Engine V I) (j : ℕ) (o : Option DocStore) (w : World)
      → i ≢ j
      → w.opened i ≡ some d
      → (finish_run e j o w).opened i ≡ some d
  unfolding finish_run set_opened
  finish_run-opened e j none w n h = h
  finish_run-opened e j (some d') w n h = ground arith

  happen-opened :
      (v : Event) (w : World)
      → IsOther i v
      → w.opened i ≡ some d
      → (happen engines v w).opened i ≡ some d
  unfolding happen set_opened
  happen-opened (opens j) w n h = ground arith
  happen-opened (finishes j) w n h = finish_run-opened (engines j) j (w.opened j) w n h

  module _ (signature s : String) (signed : (engines i).adapters.signature ≡ some signature)
      (other : s ≢ (engines i).adapters.source_id) where
    held-finish_run :
        (o : Option DocStore) (w : World)
        → o ≡ some d
        → held s (finish_run (engines i) i o w).file ≡ lookup s d.sources
    unfolding finish_run set_opened run_opened
    held-finish_run o w h =
        let e = engines i in
        rw (h, finish_run)
          (held-run e.adapters signature signed e.at e.duration e.indexer d s other e.problems)

    held_meanwhile :
        (events : List Event) (w : World)
        → All (IsOther i) events
        → w.opened i ≡ some d
        → held s (happen_all engines (events ++ finishes i ∷ []) w).file ≡ lookup s d.sources
    unfolding happen_all happen
    held_meanwhile [] w others h = held-finish_run (w.opened i) w h
    held_meanwhile (v ∷ events) w others h =
        held_meanwhile events (happen engines v w) others.1 (happen-opened v w others.0 h)

module _ {V I : Type 0} (engines : ℕ → Engine V I) where
  -- Whatever other runs of a tick do between the start and the end of a run with a signature, when it
  -- ends the state file holds of every other source what it held when the run started: what the
  -- others have committed meanwhile is lost, and alone the run changes no other source.
  pub held-happen_all :
      (i : ℕ) (signature s : String) (events : List Event) (w : World)
      → (engines i).adapters.signature ≡ some signature
      → s ≢ (engines i).adapters.source_id
      → All (IsOther i) events
      → held s (happen_all engines (opens i ∷ events ++ finishes i ∷ []) w).file ≡ held s w.file
  unfolding happen_all happen set_opened
  held-happen_all i signature s events w signed other others =
      held_meanwhile engines i (open_store w.file) signature s signed other events
        (happen engines (opens i) w) others (ground arith)
