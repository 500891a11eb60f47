-- ===== src/Query.antt =====
-- pipeline/runner.py: a query over an index, and the answer over its hits.
pub mod Safety
use alvis.Base.{String, ℕ, ◌*◌, Bool, true, false, not, ◌||◌, Option, none, some, List, [], ◌∷◌}
use alvis.Base.{if◌then◌else◌, is_some, take}
use alvis.Base.Dict.{Dict}
use alvis.Models.{SearchHit}
use alvis.Floats.{Floats}
use alvis.Errors.{Error, config_error, other_error, source_error, Result, ok, err}
use alvis.Text.{Text, to_list, has_text}
use alvis.Index.Fusion.{reciprocal_rank_fusion}
use alvis.Rerank.{rerank}
use alvis.Answer.{Answer, build_answer, citation_answer}

abbrev pub Hits : Type 0 → Type 0
Hits F = List (SearchHit F)

abbrev pub Filters : Type 0
Filters = Option (Dict String String)

abbrev pub Principals : Type 0
Principals = Option (List String)

-- What a query uses of an index; keyword search is an optional capability.
pub record Indexer (F : Type 0) : Type 0 where
  pub search : List F → ℕ → Filters → Principals → Result (Hits F)
  pub keyword_search : Option (String → ℕ → Filters → Principals → Result (Hits F))

-- The arguments of `query_async`; the reranker is what its endpoint replies for the hits.
pub record Options (F : Type 0) : Type 0 where
  pub top_k : ℕ
  pub filters : Filters
  pub hybrid : Bool
  pub rerank_reply : Option (Hits F → Result Text)
  pub principals : Principals

module _ {F : Type 0} (fl : Floats F) where
  -- `top_k * _CANDIDATE_FACTOR if over_fetch else top_k`
  unfoldable pub candidate_k : Options F → ℕ
  candidate_k options =
      if options.hybrid || is_some options.rerank_reply then options.top_k * 4 else options.top_k

  or_key_error : Option (Hits F) → Result (Hits F)
  or_key_error none = err (other_error "KeyError")
  or_key_error (some hits) = ok hits

  -- `_DEFAULT_K` of the fusion is 60.
  fused : Hits F → Result (Hits F) → Result (Hits F)
  unfolding reciprocal_rank_fusion or_key_error
  fused dense (err e) = err e
  fused dense (ok keyword) = or_key_error (reciprocal_rank_fusion fl 60 (dense ∷ keyword ∷ []))

  with_keyword :
      Options F
      → String
      → Hits F
      → Option (String → ℕ → Filters → Principals → Result (Hits F))
      → Result (Hits F)
  unfolding fused candidate_k
  with_keyword options text dense none = ok dense
  with_keyword options text dense (some keyword_search) =
      fused dense (keyword_search text (candidate_k options) options.filters options.principals)

  -- The candidates, from the dense hits.
  candidates : Indexer F → Options F → String → Result (Hits F) → Result (Hits F)
  unfolding with_keyword
  candidates indexer options text (err e) = err e
  candidates indexer options text (ok dense) =
      if not options.hybrid
      then ok dense
      else with_keyword options text dense indexer.keyword_search

  narrowed : ℕ → Hits F → Option (Hits F → Result Text) → Result (Hits F)
  unfolding rerank
  narrowed top_k hits none = ok (take top_k hits)
  narrowed top_k hits (some reply) = rerank (reply hits) hits top_k

  finish : Options F → Result (Hits F) → Result (Hits F)
  unfolding narrowed
  finish options (err e) = err e
  finish options (ok hits) = narrowed options.top_k hits options.rerank_reply

  searched : Indexer F → Options F → String → Result (List F) → Result (Hits F)
  unfolding candidates finish candidate_k
  searched indexer options text (err e) = err e
  searched indexer options text (ok vector) = finish options (
      candidates indexer options text
        (indexer.search vector (candidate_k options) options.filters options.principals))

  -- `query_async` over an index, with the embedder's vector for the text.
  unfoldable pub query :
      Indexer F → Options F → (String → Result (List F)) → String → Result (Hits F)
  unfolding searched has_text
  query indexer options embed text =
      if not (has_text (to_list text))
      then err (config_error "query text must not be empty")
      else searched indexer options text (embed text)

  -- `except SourceError`, around the call of the chat endpoint and the parsing of its content
  synthesized : (ℕ → Text) → Hits F → Result Text → Result (Answer F)
  unfolding build_answer citation_answer
  synthesized show hits (ok content) = build_answer content hits
  synthesized show hits (err (source_error message)) =
      ok (citation_answer show "LLM call failed" hits)
  synthesized show hits (err e) = err e

  answered : (ℕ → Text) → Option (Hits F → Result Text) → Result (Hits F) → Result (Answer F)
  unfolding synthesized citation_answer
  answered show llm (err e) = err e
  answered show none (ok hits) = ok (citation_answer show "No LLM configured" hits)
  answered show (some llm) (ok hits) = synthesized show hits (llm hits)

  -- `answer_async`; the history is part of what the chat endpoint replies to.
  unfoldable pub answer :
      (ℕ → Text)
      → Option (Hits F → Result Text)
      → Indexer F
      → Options F
      → (String → Result (List F))
      → String
      → Result (Answer F)
  unfolding query answered
  answer show llm indexer options embed text = answered show llm (query indexer options embed text)
