-- ===== src/Evaluation/Ranks.antt =====
-- The rank of a case is that of the first hit that it expects.
use alvis.Base.{
  String, ℕ, suc, ◌≡◌, refl, ap, Bool, false, Option, none, some, List, [], ◌∷◌, map, inl, inr,
}
use alvis.Base.{if◌then◌else◌, All, Bool-cases}
use alvis.Models.{SearchHit}
use alvis.Errors.{Result, ok, err}
use alvis.Evaluation.{
  EvalCase, EvalCaseResult, principals_for, expected, first_rank, evaluate_case, add_result,
  evaluate,
}

module _ {F : Type 0} where
  -- The rank is that of the first hit that passes the test, counted from the index, and none if no
  -- hit passes.
  abbrev pub IsFirst : (SearchHit F → Bool) → ℕ → List (SearchHit F) → Option ℕ → Type 0
  IsFirst test index hits none = All (λ h. test h ≡ false) hits
  IsFirst test index [] (some rank) = ⊥
  IsFirst test index (h ∷ hits) (some rank) =
      if test h then rank ≡ index else IsFirst test (suc index) hits (some rank)

  IsFirst-later :
      (test : SearchHit F → Bool) (index : ℕ) (h : SearchHit F) (hits : List (SearchHit F))
      → (rank : Option ℕ) → test h ≡ false
      → IsFirst test (suc index) hits rank
      → IsFirst test index (h ∷ hits) rank
  IsFirst-later test index h hits none e p = (e, p)
  IsFirst-later test index h hits (some rank) e p = rw e p

  first_rank-IsFirst :
      (test : SearchHit F → Bool) (index : ℕ) (hits : List (SearchHit F))
      → IsFirst test index hits (first_rank test index hits)
  unfolding first_rank
  first_rank-IsFirst test index [] = tt
  first_rank-IsFirst test index (h ∷ hits) = elim (Bool-cases (test h)) [
    | inl e ↦ rw e (rw e refl)
    | inr e ↦ rw e (
        IsFirst-later test index h hits (first_rank test (suc index) hits) e
          (first_rank-IsFirst test (suc index) hits))
  ]

  -- The result of a case has the hits of its query, and the rank of the first that it expects.
  abbrev pub IsScored :
      (String → Option (List String) → Result (List (SearchHit F)))
      → Option (List String)
      → EvalCaseResult F
      → Type 0
  IsScored query principals r =
      (query r.eval_case.query (principals_for r.eval_case principals) ≡ ok r.hits)
      × IsFirst (expected r.eval_case) 1 r.hits r.rank

  -- What holds of the results of the cases, if no query raises.
  abbrev pub Scored :
      (String → Option (List String) → Result (List (SearchHit F)))
      → Option (List String)
      → List EvalCase
      → Result (List (EvalCaseResult F))
      → Type 0
  Scored query principals cases (err e) =
      (c : EvalCase) × (query c.query (principals_for c principals) ≡ err e)
  Scored query principals cases (ok results) =
      (map (λ r. r.eval_case) results ≡ cases) × All (IsScored query principals) results

  add_result-Scored :
      (query : String → Option (List String) → Result (List (SearchHit F)))
      → (principals : Option (List String)) (c : EvalCase) (cases : List EvalCase)
      → (hits : Result (List (SearchHit F))) → query c.query (principals_for c principals) ≡ hits
      → (rest : Result (List (EvalCaseResult F))) → Scored query principals cases rest
      → Scored query principals (c ∷ cases) (add_result c hits rest)
  unfolding add_result evaluate_case
  add_result-Scored query principals c cases (err e) h rest s = (c, h)
  add_result-Scored query principals c cases (ok hits) h (err e) s = s
  add_result-Scored query principals c cases (ok hits) h (ok results) s =
      (ap (λ cs. c ∷ cs) s.0, ((h, first_rank-IsFirst (expected c) 1 hits), s.1))

  -- If no query raises, the evaluation gives a result for each case in the order of the cases, with
  -- the hits that the query gives under the case's own principals or else those of the call, and with
  -- the rank from 1 of the first hit whose uri has the expected text, and none if no hit has it. What
  -- it raises is what the query of a text raises.
  pub evaluate_lem :
      (query : String → Option (List String) → Result (List (SearchHit F)))
      → (principals : Option (List String)) (cases : List EvalCase)
      → Scored query principals cases (evaluate query principals cases)
  unfolding evaluate
  evaluate_lem query principals [] = (refl, tt)
  evaluate_lem query principals (c ∷ cases) =
      add_result-Scored query principals c cases (query c.query (principals_for c principals)) refl
        (evaluate query principals cases) (evaluate_lem query principals cases)
