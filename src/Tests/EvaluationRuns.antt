-- ===== src/Tests/EvaluationRuns.antt =====
-- Two cases over an index that answers only the caller "ann".
use alvis.Base.{String, ℕ, ◌≡◌, refl, Option, none, some, List, [], ◌∷◌, map}
use alvis.Models.{SearchHit}
use alvis.Errors.{Result, ok}
use alvis.Evaluation.{EvalCase, EvalCaseResult, evaluate}
use alvis.Evaluation.Ranks.{Scored, evaluate_lem}
use alvis.Tests.QueryRuns.{three}

abbrev cases : List EvalCase
cases =
    record { query = "beta"; expected_source_uri = "b.m"; principals = none }
    ∷ record { query = "beta"; expected_source_uri = "a.md"; principals = some [] }
    ∷ []

abbrev answered : String → Option (List String) → Result (List (SearchHit ℕ))
answered text (some (ann ∷ [])) = ok three
answered text principals = ok []

ranks :
    (results : List (EvalCaseResult ℕ)) × (evaluate answered (some ("ann" ∷ [])) cases ≡ ok results)
    × (map (λ r. r.rank) results ≡ some 2 ∷ none ∷ [])
unfolding evaluate
ranks = (_, refl, refl)

evaluate_lem_example :
    Scored answered (some ("ann" ∷ [])) cases (evaluate answered (some ("ann" ∷ [])) cases)
evaluate_lem_example = evaluate_lem answered (some ("ann" ∷ [])) cases
