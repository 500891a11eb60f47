-- ===== src/Query/Safety.antt =====
-- What a query gives comes from the index, whichever way it is fused and reranked.
use alvis.Base.{String, ℕ, ◌≡◌, refl, ap, sym, ◌∙◌, true, not, Option, none, some, List, [], ◌∷◌}
use alvis.Base.{if_cases, All}
use mathlib.Core.Bool.{false≢true}
use mathlib.Core.Path.{subst}
use alvis.Models.{SearchHit}
use alvis.Floats.{Floats}
use alvis.Errors.{Result, ok}
use alvis.Text.{Text, to_list, has_text}
use alvis.Index.Fusion.Origin.{reciprocal_rank_fusion-All}
use alvis.Rerank.Order.{Few, take-Few, rerank-Few}
use alvis.Query.{
  Hits, Filters, Principals, Indexer, Options, candidate_k, fused, or_key_error, with_keyword,
  candidates, narrowed, finish, searched, query,
}

module _ {F : Type 0} (fl : Floats F) (P : SearchHit F → Type 0)
    (any_score : (hit : SearchHit F) (score : F) → P hit → P (record hit { score = score })) where
  -- The search does not raise, and each hit has the property.
  abbrev pub Answers : Result (Hits F) → Type 0
  Answers r = (hits : Hits F) × (r ≡ ok hits) × All P hits

  fused-Answers :
      (dense : Hits F) (r : Result (Hits F)) → All P dense → Answers r → Answers (fused fl dense r)
  unfolding fused or_key_error
  fused-Answers dense r ps (keyword, e, qs) =
      let rankings : List (Hits F) = dense ∷ keyword ∷ [] in
      let (hits, f, h) = reciprocal_rank_fusion-All fl 60 P any_score rankings (ps, (qs, tt)) in
      (hits, ap (fused fl dense) e ∙ ap (or_key_error fl) f, h)

  -- The answer of the index to a keyword search.
  abbrev pub KeywordAnswers :
      Options F → String → Option (String → ℕ → Filters → Principals → Result (Hits F)) → Type 0
  KeywordAnswers options text none = Unit {0}
  KeywordAnswers options text (some keyword_search) =
      Answers (keyword_search text (candidate_k fl options) options.filters options.principals)

  with_keyword-Answers :
      (options : Options F) (text : String) (dense : Hits F)
      → (o : Option (String → ℕ → Filters → Principals → Result (Hits F))) → All P dense
      → KeywordAnswers options text o
      → Answers (with_keyword fl options text dense o)
  unfolding with_keyword
  with_keyword-Answers options text dense none ps k = (dense, refl, ps)
  with_keyword-Answers options text dense (some keyword_search) ps k = fused-Answers dense _ ps k

  candidates-Answers :
      (indexer : Indexer F) (options : Options F) (text : String) (r : Result (Hits F))
      → KeywordAnswers options text indexer.keyword_search
      → Answers r
      → Answers (candidates fl indexer options text r)
  unfolding candidates
  candidates-Answers indexer options text r keyword (dense, e, ps) =
      subst (λ r. Answers (candidates fl indexer options text r)) (sym e)
        (if_cases Answers (not options.hybrid) (ok dense)
          (with_keyword fl options text dense indexer.keyword_search) (λ _. (dense, refl, ps))
          (λ _. with_keyword-Answers options text dense indexer.keyword_search ps keyword))

  narrowed-Few :
      (top_k : ℕ) (hits : Hits F) (o : Option (Hits F → Result Text))
      → All P hits
      → Few P top_k (narrowed fl top_k hits o)
  unfolding narrowed
  narrowed-Few top_k hits none ps = take-Few P top_k hits ps
  narrowed-Few top_k hits (some reply) ps = rerank-Few P (reply hits) hits top_k ps

  finish-Few :
      (options : Options F) (r : Result (Hits F))
      → Answers r
      → Few P options.top_k (finish fl options r)
  unfolding finish
  finish-Few options r (hits, e, ps) =
      subst (λ r. Few P options.top_k (finish fl options r)) (sym e)
        (narrowed-Few options.top_k hits options.rerank_reply ps)

  -- If the text has more than spaces and is embedded, and if the searches of the index do not raise
  -- and each of their hits has a property that does not depend on the score, then the query does not
  -- raise, hybrid or not and reranked or not, and gives at most `top_k` hits, all with the property.
  pub query-Few :
      (indexer : Indexer F) (options : Options F) (embed : String → Result (List F))
      → (text : String) (vector : List F) → has_text (to_list text) ≡ true
      → embed text ≡ ok vector
      → Answers (indexer.search vector (candidate_k fl options) options.filters options.principals)
      → KeywordAnswers options text indexer.keyword_search
      → Few P options.top_k (query fl indexer options embed text)
  unfolding query searched
  query-Few indexer options embed text vector t e found keyword =
      if_cases (Few P options.top_k) (not (has_text (to_list text))) _
        (searched fl indexer options text (embed text))
        (λ blank. absurd (false≢true (sym (ap not t) ∙ blank)))
        (λ _.
          subst (λ r. Few P options.top_k (searched fl indexer options text r)) (sym e)
            (finish-Few options
              (candidates fl indexer options text
                (indexer.search vector (candidate_k fl options) options.filters options.principals))
              (candidates-Answers indexer options text _ keyword found)))
