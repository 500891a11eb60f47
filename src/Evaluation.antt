-- ===== src/Evaluation.antt =====
-- evaluation.py: how well a pipeline retrieves what its cases expect.
pub mod Ranks
use Prim.Native.Char.{Char, code}
use alvis.Base.{
  String, ℕ, zero, suc, Bool, true, false, not, ◌&&◌, ◌||◌, Option, none, some, List, [], ◌∷◌,
}
use alvis.Base.{eqb, if◌then◌else◌, is_some, countb, filterb, length}
use alvis.Models.{SearchHit}
use alvis.Floats.{Floats}
use alvis.Errors.{Error, Result, ok, err}
use alvis.Text.{Text, to_list}

pub record EvalCase : Type 0 where
  pub query : String
  pub expected_source_uri : String
  pub principals : Option (List String)

-- The result of a case, without the answer and the judge's verdict on it.
pub record EvalCaseResult (F : Type 0) : Type 0 where
  pub eval_case : EvalCase
  pub hits : List (SearchHit F)
  pub rank : Option ℕ

starts : Text → Text → Bool
starts s [] = true
starts [] (c ∷ t) = false
starts (d ∷ s) (c ∷ t) = eqb (code c) (code d) && starts s t

-- `t in s`
unfoldable pub occurs : Text → Text → Bool
unfolding starts
occurs t [] = starts [] t
occurs t (c ∷ s) = starts (c ∷ s) t || occurs t s

-- `case.principals if case.principals is not None else principals`
unfoldable pub principals_for : EvalCase → Option (List String) → Option (List String)
principals_for eval_case principals = elim eval_case.principals [
  | none ↦ principals
  | some own ↦ some own
]

module _ {F : Type 0} where
  -- `case.expected_source_uri in hit.source_uri`
  unfoldable pub expected : EvalCase → SearchHit F → Bool
  unfolding occurs
  expected eval_case hit = occurs (to_list eval_case.expected_source_uri) (to_list hit.source_uri)

  -- `next((i for i, hit in enumerate(hits, start=index) if test), None)`
  unfoldable pub first_rank : (SearchHit F → Bool) → ℕ → List (SearchHit F) → Option ℕ
  first_rank test index [] = none
  first_rank test index (hit ∷ hits) =
      let later = first_rank test (suc index) hits in if test hit then some index else later

  unfoldable pub evaluate_case : EvalCase → List (SearchHit F) → EvalCaseResult F
  unfolding first_rank expected
  evaluate_case eval_case hits = record {
    eval_case = eval_case;
    hits = hits;
    rank = first_rank (expected eval_case) 1 hits;
  }

  add_result :
      EvalCase
      → Result (List (SearchHit F))
      → Result (List (EvalCaseResult F))
      → Result (List (EvalCaseResult F))
  unfolding evaluate_case
  add_result eval_case (err e) rest = err e
  add_result eval_case (ok hits) (err e) = err e
  add_result eval_case (ok hits) (ok results) = ok (evaluate_case eval_case hits ∷ results)

  -- `evaluate_async` without `llm` and `judge`, for the query of a text under principals
  unfoldable pub evaluate :
      (String → Option (List String) → Result (List (SearchHit F)))
      → Option (List String)
      → List EvalCase
      → Result (List (EvalCaseResult F))
  unfolding add_result principals_for
  evaluate query principals [] = ok []
  evaluate query principals (eval_case ∷ cases) =
      add_result eval_case (query eval_case.query (principals_for eval_case principals))
        (evaluate query principals cases)

  -- `EvalCaseResult.hit`
  abbrev pub is_hit : EvalCaseResult F → Bool
  is_hit result = is_some result.rank

  -- `EvalReport.misses`
  unfoldable pub misses : List (EvalCaseResult F) → List (EvalCaseResult F)
  misses results = filterb (λ r. not (is_hit r)) results

  module _ (fl : Floats F) where
    reciprocal : Option ℕ → F
    reciprocal none = fl.zero
    reciprocal (some rank) = fl.div fl.one (fl.of_nat rank)

    reciprocal_sum : F → List (EvalCaseResult F) → F
    unfolding reciprocal
    reciprocal_sum sum [] = sum
    reciprocal_sum sum (r ∷ results) = reciprocal_sum (fl.add sum (reciprocal r.rank)) results

    -- `EvalReport.hit_rate`
    unfoldable pub hit_rate : List (EvalCaseResult F) → F
    hit_rate [] = fl.zero
    hit_rate (r ∷ results) =
        fl.div (fl.of_nat (countb is_hit (r ∷ results))) (fl.of_nat (length (r ∷ results)))

    -- `EvalReport.mrr`
    unfoldable pub mrr : List (EvalCaseResult F) → F
    unfolding reciprocal_sum
    mrr [] = fl.zero
    mrr (r ∷ results) =
        fl.div (reciprocal_sum fl.zero (r ∷ results)) (fl.of_nat (length (r ∷ results)))
