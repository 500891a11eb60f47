-- ===== src/Tests/SourceRuns.antt =====
-- Documents from two providers, requests that fail at first, and a query under principals.
use Prim.Native.String.{count}
use alvis.Base.{
  String, ℕ, zero, suc, ◌≡◌, inl, inr, refl, true, none, some, List, [], ◌∷◌, string_eq,
}
use alvis.Base.{All, Any}
use alvis.Models.{Artifact, DocumentMeta, SearchHit}
use alvis.Errors.{Error, source_error, Result, ok, err}
use alvis.Text.{is_space, has_text}
use alvis.Sources.Provider.{
  SourceDocument, ProviderSource, all_documents, list_documents, fetch, meta_of,
}
use alvis.Sources.Provider.Identity.{
  HasUniqueIds, IsCapped, IsOf, all_documents_lem, fetch-list_documents,
}
use alvis.Sources.Http.{Reply, failed, responded, Request, request}
use alvis.Sources.Http.Retries.{Settled, request_lem}
use alvis.Index.Acl.{acl_visible}
use alvis.Index.Memory.{MemoryIndex, search, upsert, empty_index}
use alvis.Query.{Indexer, Options, candidate_k, query}
use alvis.Query.Safety.{query-Few}
use alvis.Rerank.Order.{Few}
use alvis.Value.{str}
use alvis.Tests.Fixtures.{repr, plain, whole, chunk_a, chunk_b}

abbrev document : String → String → SourceDocument
document id body = record {
  id = id;
  content = body;
  title = "";
  uri = none;
  content_type = "text/plain";
  metadata = [];
}

abbrev source : ProviderSource
source = record {
  providers =
      record {
        label = "one";
        documents = ok (document "a" "alpha" ∷ document "big" "too large" ∷ []);
      }
      ∷ record { label = "two"; documents = ok (document "b" "beta" ∷ []) }
      ∷ [];
  name = "provider";
  max_bytes = some 6;
}

-- The document "big" is above the cap.
abbrev size : String → ℕ
size s = count s

abbrev message : Error → String
message e = "down"

abbrev listed : List SourceDocument
listed = document "a" "alpha" ∷ document "b" "beta" ∷ []

collected : all_documents plain size source message ≡ ok listed
unfolding all_documents string_eq
collected = refl

all_documents_lem_example : HasUniqueIds listed × All (IsCapped plain size source) listed
all_documents_lem_example = all_documents_lem plain size source message listed collected

abbrev metas : List DocumentMeta
metas = meta_of plain size (document "a" "alpha") ∷ meta_of plain size (document "b" "beta") ∷ []

metas_listed : list_documents plain size source message ≡ ok metas
unfolding list_documents string_eq
metas_listed = refl

fetched : Result (List Artifact) → List Artifact
fetched (ok artifacts) = artifacts
fetched (err e) = []

fetch-list_documents_example :
    Any
      (IsOf plain size source (meta_of plain size (document "b" "beta")))
      (fetched (fetch plain size source message (some ("b" ∷ []))))
unfolding fetched fetch meta_of string_eq
fetch-list_documents_example =
    fetch-list_documents plain size source message metas (meta_of plain size (document "b" "beta"))
      ("b" ∷ []) _ metas_listed (inr (inl refl)) refl refl

abbrev digits : ℕ → String
digits n = "4"

abbrev get : Request
get = record { method_url = "GET /x"; max_retries = 3; max_bytes = some 4; ok_status = 200 ∷ [] }

-- The connection fails, the server is busy, and then it answers.
abbrev flaky : ℕ → Reply
flaky zero = failed "reset"
flaky (suc zero) = responded 503 []
flaky (suc (suc n)) = responded 200 ((1 ∷ 2 ∷ []) ∷ (3 ∷ []) ∷ [])

third_attempt : request digits get flaky ≡ (ok (1 ∷ 2 ∷ 3 ∷ []), 3)
unfolding request
third_attempt = refl

request_lem_example : Settled digits get flaky 0 (request digits get flaky)
request_lem_example = request_lem digits get flaky

points : MemoryIndex ℕ
unfolding upsert string_eq
points =
    upsert plain chunk_b (3 ∷ 4 ∷ []) "fs" "hb"
      (upsert plain chunk_a (1 ∷ 2 ∷ []) "fs" "ha" empty_index)

-- The index searched densely stands in for its keyword search.
abbrev indexer : Indexer ℕ
indexer = record {
  search =
      λ vector top_k filters principals. search repr whole vector top_k filters principals points;
  keyword_search = some (λ text top_k filters principals.
      search repr whole (1 ∷ 1 ∷ []) top_k filters principals points);
}

abbrev asked : Options ℕ
asked = record {
  top_k = 1;
  filters = none;
  hybrid = true;
  rerank_reply = some (λ hits. err (source_error "down"));
  principals = some ("hr" ∷ []);
}

-- The hit may be seen by the caller.
abbrev IsVisible : SearchHit ℕ → Type 0
IsVisible hit = acl_visible repr hit.metadata (some ("hr" ∷ [])) ≡ true

query-Few_example : Few IsVisible 1 (query whole indexer asked (λ text. ok (1 ∷ 1 ∷ [])) "what?")
unfolding is_space search points acl_visible str string_eq has_text candidate_k
query-Few_example =
    query-Few whole IsVisible (λ hit score h. h) indexer asked (λ text. ok (1 ∷ 1 ∷ [])) "what?"
      (1 ∷ 1 ∷ []) refl refl (_, refl, (refl, tt)) (_, refl, (refl, tt))
