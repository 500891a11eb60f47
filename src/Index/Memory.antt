-- ===== src/Index/Memory.antt =====
-- index/memory.py: the in-memory index.
pub mod Store
pub mod Search
use alvis.Base.{
  String, ℕ, Bool, true, false, not, ◌&&◌, ◌||◌, Option, none, some, List, [], ◌∷◌, map,
}
use alvis.Base.{Eq, ◌==◌, string_eq, if◌then◌else◌, filterb, take, length}
use alvis.Base.Dict.{Dict, lookup, insert, filter_items, values}
use alvis.Base.Sort.{sort_desc}
use alvis.Value.{Value}
use alvis.Models.{Chunk, Metadata, SearchHit, point_id}
use alvis.Errors.{Result, ok, err}
use alvis.Floats.{Floats}
use alvis.Index.Acl.{acl_visible}
use alvis.Index.Math.{cosine_similarity, clamp}
use alvis.Index.Filters.{matches}
use alvis.Index.Keyword.{tokenize, bm25_scores, zip_strict}
use alvis.Text.{Text}

pub record Point (F : Type 0) : Type 0 where
  pub source_id : String
  pub artifact_hash : String
  pub chunk : Chunk
  pub vector : List F

pub record MemoryIndex (F : Type 0) : Type 0 where
  pub points : Dict String (Point F)

abbrev pub empty_index : {F : Type 0} → MemoryIndex F
empty_index = record { points = [] }

-- `uri not in current or current[uri] != artifact_hash`
unfoldable pub outdated : Option String → String → Bool
outdated none artifact_hash = true
outdated (some h) artifact_hash = not (h == artifact_hash)

module _ {F : Type 0} where
  unfoldable pub upsert :
      (String → String) → Chunk → List F → String → String → MemoryIndex F → MemoryIndex F
  unfolding point_id insert
  upsert uuid5 chunk vector source_id artifact_hash index = record {
    points =
        insert (point_id uuid5 chunk.source_uri chunk.text)
          (record {
            source_id = source_id;
            artifact_hash = artifact_hash;
            chunk = chunk;
            vector = vector;
          })
          index.points;
  }

  unfoldable pub is_stale : String → Dict String String → Point F → Bool
  unfolding outdated lookup
  is_stale source_id current p =
      p.source_id == source_id && outdated (lookup p.chunk.source_uri current) p.artifact_hash

  unfoldable pub reconcile : String → Dict String String → MemoryIndex F → MemoryIndex F
  unfolding is_stale filter_items
  reconcile source_id current index = record {
    points = filter_items (λ pid p. not (is_stale source_id current p)) index.points;
  }

  unfoldable pub count : MemoryIndex F → ℕ
  count index = length index.points

  module _ (repr : Value → String) (fl : Floats F) where
    unfoldable pub candidates :
        Option (Dict String String) → Option (List String) → List (Point F) → List (Point F)
    unfolding matches acl_visible
    candidates filters principals =
        filterb (λ p.
          matches repr p.chunk.metadata filters && acl_visible repr p.chunk.metadata principals)

    unfoldable pub with_similarity :
        Result F → Point F → Result (List (Point F × F)) → Result (List (Point F × F))
    with_similarity (err e) p rest = err e
    with_similarity (ok s) p (err e) = err e
    with_similarity (ok s) p (ok rest) = ok ((p, s) ∷ rest)

    -- The sort takes the key of every point before it compares.
    unfoldable pub similarities : List F → List (Point F) → Result (List (Point F × F))
    unfolding with_similarity cosine_similarity
    similarities vector [] = ok []
    similarities vector (p ∷ points) =
        with_similarity (cosine_similarity fl vector p.vector) p (similarities vector points)

    unfoldable pub to_hit : F → Point F → SearchHit F
    to_hit score p = record {
      text = p.chunk.text;
      source_uri = p.chunk.source_uri;
      metadata = p.chunk.metadata;
      score = score;
    }

    unfoldable pub best : ℕ → Result (List (Point F × F)) → Result (List (SearchHit F))
    unfolding clamp sort_desc to_hit
    best top_k (err e) = err e
    best top_k (ok scored) =
        ok (map (λ (p, s). to_hit (clamp fl s) p) (take top_k (sort_desc fl.lt (λ t. t.1) scored)))

    unfoldable pub search :
        List F
        → ℕ
        → Option (Dict String String)
        → Option (List String)
        → MemoryIndex F
        → Result (List (SearchHit F))
    unfolding candidates similarities best
    search vector top_k filters principals index =
        best top_k (similarities vector (candidates filters principals (values index.points)))

    unfoldable pub ranked_hits : ℕ → Result (List (Point F × F)) → Result (List (SearchHit F))
    unfolding sort_desc to_hit
    ranked_hits top_k (err e) = err e
    ranked_hits top_k (ok scored) =
        ok (map (λ (p, s). to_hit s p) (take top_k (sort_desc fl.lt (λ t. t.1) scored)))

    -- `keyword_search`, for `math.log` and the method `lower` of texts
    unfoldable pub keyword_search :
        (F → F)
        → (Text → Text)
        → String
        → ℕ
        → Option (Dict String String)
        → Option (List String)
        → MemoryIndex F
        → Result (List (SearchHit F))
    unfolding candidates ranked_hits bm25_scores tokenize zip_strict
    keyword_search log lower query top_k filters principals index =
        let points = candidates filters principals (values index.points) in
        ranked_hits top_k (
          zip_strict points (
            bm25_scores fl log (tokenize lower query)
              (map (λ p. tokenize lower p.chunk.text) points)))
