-- ===== src/Watch/Ticks.antt =====
-- The watch loop under `max_parallel=1`, where the pipelines of a tick run one after the other.
use alvis.Base.{String, ℕ, zero, suc, ◌≡◌, ◌≢◌, refl, ap, none, List, [], ◌∷◌, arith}
use alvis.Base.{All, length}
use alvis.Errors.{pipeline_error, source_error, config_error, value_error, other_error}
use alvis.Errors.{Result, ok, err}
use alvis.DocStore.{DocStore, StateFile, open_store}
use alvis.Pipeline.Engine.{PipelineResult}
use alvis.Watch.{
  Engine, Element, ended, failed, soften, run_opened, run_engine, run_serially, add_element, gather,
  tick_once, go_on, ticks_from, watch,
}

-- The run raises nothing but the exceptions that the loop catches.
abbrev pub IsSoft : Result PipelineResult → Type 0
IsSoft (err (value_error m)) = ⊥
IsSoft (err (other_error m)) = ⊥
IsSoft _ = Unit {0}

soften_total : (r : Result PipelineResult) → IsSoft r → (x : Element) × (soften r ≡ ok x)
unfolding soften
soften_total (ok result) h = (ended result, refl)
soften_total (err (pipeline_error m)) h = (failed (pipeline_error m), refl)
soften_total (err (source_error m)) h = (failed (source_error m), refl)
soften_total (err (config_error m)) h = (failed (config_error m), refl)
soften_total (err (value_error m)) h = absurd h
soften_total (err (other_error m)) h = absurd h

module _ {V I : Type 0} where
  tick_once_total :
      (engines : List (Engine V I)) (file : StateFile)
      → ((d : DocStore) → All (λ e. IsSoft (run_opened e d).0) engines)
      → (xs : List Element) × ((tick_once engines file).0 ≡ ok xs) × (length xs ≡ length engines)
  unfolding tick_once run_serially gather run_engine add_element
  tick_once_total [] file h = ([], refl, refl)
  tick_once_total (e ∷ engines) file h =
      let (x, p) = soften_total (run_opened e (open_store file)).0 (h (open_store file)).0 in
      let (xs, q, n) = tick_once_total engines (run_engine e file).1 (λ d. (h d).1) in
      (x ∷ xs, rw (p, q) refl, ap suc n)

  module _ (configs : ℕ) (engines_at : ℕ → List (Engine V I))
      (each : (n : ℕ) → length (engines_at n) ≡ configs)
      (soft : (n : ℕ) (d : DocStore) → All (λ e. IsSoft (run_opened e d).0) (engines_at n)) where
    ticks_from_total :
        (n left : ℕ) (file : StateFile)
        → (ticks : List (List Element)) × (ticks_from engines_at n left file ≡ (ticks, none))
          × (length ticks ≡ left)
          × All (λ tick. length tick ≡ configs) ticks
    unfolding ticks_from go_on
    ticks_from_total n zero file = ([], refl, refl, tt)
    ticks_from_total n (suc left) file =
        let (xs, p, m) = tick_once_total (engines_at n) file (soft n) in
        let (ticks, q, k, all) = ticks_from_total (suc n) left (tick_once (engines_at n) file).1 in
        (xs ∷ ticks, rw (p, q) refl, ap suc k, (ground (arith, each n), all))

    -- Under `max_parallel=1`, if the runs raise nothing but pipeline, source and configuration errors,
    -- then a watch of at least one configuration with an interval that is not 0 goes on: it raises
    -- nothing, and yields as many ticks as one waits for, each with an element for every configuration.
    pub watch_goes_on :
        (show : ℕ → String) (interval ticks : ℕ) (file : StateFile)
        → configs ≢ 0
        → interval ≢ 0
        → (yielded : List (List Element)) × (watch show configs interval engines_at ticks file
            ≡ (yielded, none))
          × (length yielded ≡ ticks)
          × All (λ tick. length tick ≡ configs) yielded
    unfolding watch
    watch_goes_on show interval ticks file some_config some_wait =
        let (yielded, p, q, r) = ticks_from_total 0 ticks file in (yielded, ground arith, q, r)
