-- ===== src/Index/Sqlite.antt =====
-- index/sqlite.py: the index in a SQLite table, whose rows a SELECT reads in the order of their
-- insertion. The JSON columns have a type `J`, with the encoders and decoders of `json`.
pub mod Table
pub mod Scans
pub mod Refinement
use alvis.Base.{String, ℕ, Bool, true, false, not, ◌&&◌, Option, none, some, List, [], ◌∷◌, map}
use alvis.Base.{◌==◌, string_eq, contains, if◌then◌else◌, filterb, take, length}
use alvis.Base.Dict.{Dict, lookup}
use alvis.Base.Sort.{sort_desc}
use alvis.Value.{Value}
use alvis.Models.{Chunk, Metadata, SearchHit, point_id}
use alvis.Errors.{Error, Result, ok, err}
use alvis.Floats.{Floats}
use alvis.Text.{Text}
use alvis.Index.Acl.{acl_visible}
use alvis.Index.Math.{cosine_similarity, clamp}
use alvis.Index.Filters.{matches}
use alvis.Index.Keyword.{tokenize, bm25_scores, zip_strict}
use alvis.Index.Memory.{outdated}

-- `json.dumps` and `json.loads` of what the table stores.
pub record Json (J F : Type 0) : Type 0 where
  pub dumps : Metadata → J
  pub loads : J → Metadata
  pub dumps_vector : List F → J
  pub loads_vector : J → List F

pub record Row (J : Type 0) : Type 0 where
  pub id : String
  pub source_id : String
  pub artifact_hash : String
  pub uri : String
  pub text : String
  pub metadata : J
  pub vector : J

-- A hit before it is ranked: `(text, uri, metadata)`.
abbrev pub Found : Type 0
Found = String × String × Metadata

abbrev pub hit_of : {F : Type 0} → F → Found → SearchHit F
hit_of score (text, uri, metadata) = record {
  text = text;
  source_uri = uri;
  metadata = metadata;
  score = score;
}

module _ {J : Type 0} where
  -- `INSERT ... ON CONFLICT(id) DO UPDATE`
  write_row : Row J → List (Row J) → List (Row J)
  unfolding string_eq
  write_row row [] = row ∷ []
  write_row row (r ∷ rows) =
      let rest = write_row row rows in if row.id == r.id then row ∷ rows else r ∷ rest

  -- `DELETE FROM points WHERE id = ?` for each of the identifiers
  delete_ids : List String → List (Row J) → List (Row J)
  unfolding string_eq
  delete_ids [] rows = rows
  delete_ids (pid ∷ ids) rows = delete_ids ids (filterb (λ r. not (r.id == pid)) rows)

  is_outdated : String → Dict String String → Row J → Bool
  unfolding outdated lookup string_eq
  is_outdated source_id current r =
      r.source_id == source_id && outdated (lookup r.uri current) r.artifact_hash

  unfoldable pub reconcile : String → Dict String String → List (Row J) → List (Row J)
  unfolding delete_ids is_outdated
  reconcile source_id current rows =
      delete_ids (map (λ r. r.id) (filterb (is_outdated source_id current) rows)) rows

  unfoldable pub count : List (Row J) → ℕ
  count rows = length rows

  module _ {F : Type 0} (json : Json J F) where
    unfoldable pub upsert :
        (String → String) → Chunk → List F → String → String → List (Row J) → List (Row J)
    unfolding write_row point_id
    upsert uuid5 chunk vector source_id artifact_hash = write_row (record {
      id = point_id uuid5 chunk.source_uri chunk.text;
      source_id = source_id;
      artifact_hash = artifact_hash;
      uri = chunk.source_uri;
      text = chunk.text;
      metadata = json.dumps chunk.metadata;
      vector = json.dumps_vector vector;
    })

    module _ (repr : Value → String) (fl : Floats F) where
      passes : Option (Dict String String) → Option (List String) → Row J → Bool
      unfolding matches acl_visible
      passes filters principals r =
          matches repr (json.loads r.metadata) filters
          && acl_visible repr (json.loads r.metadata) principals

      add_scored : Result F → Found → Result (List (F × Found)) → Result (List (F × Found))
      unfolding clamp
      add_scored (err e) found rest = err e
      add_scored (ok s) found (err e) = err e
      add_scored (ok s) found (ok rest) = ok ((clamp fl s, found) ∷ rest)

      -- The loop of `_read`, which raises at the first vector of another length.
      scan :
          List F
          → Option (Dict String String)
          → Option (List String)
          → List (Row J)
          → Result (List (F × Found))
      unfolding passes add_scored cosine_similarity
      scan vector filters principals [] = ok []
      scan vector filters principals (r ∷ rows) =
          let rest = scan vector filters principals rows in
          if passes filters principals r
          then add_scored (cosine_similarity fl vector (json.loads_vector r.vector))
              (r.text, r.uri, json.loads r.metadata) rest
          else rest

      first_hits : ℕ → Result (List (F × Found)) → Result (List (SearchHit F))
      unfolding sort_desc
      first_hits top_k (err e) = err e
      first_hits top_k (ok scored) =
          ok (map (λ (s, found). hit_of s found) (take top_k (sort_desc fl.lt (λ t. t.0) scored)))

      unfoldable pub search :
          List F
          → ℕ
          → Option (Dict String String)
          → Option (List String)
          → List (Row J)
          → Result (List (SearchHit F))
      unfolding scan first_hits
      search vector top_k filters principals rows =
          first_hits top_k (scan vector filters principals rows)

      kept : Option (Dict String String) → Option (List String) → List (Row J) → List Found
      unfolding passes
      kept filters principals [] = []
      kept filters principals (r ∷ rows) =
          let rest = kept filters principals rows in
          if passes filters principals r
          then (r.text, r.uri, json.loads r.metadata) ∷ rest
          else rest

      ranked : ℕ → Result (List (Found × F)) → Result (List (SearchHit F))
      unfolding sort_desc
      ranked top_k (err e) = err e
      ranked top_k (ok scored) =
          ok (map (λ (found, s). hit_of s found) (take top_k (sort_desc fl.lt (λ t. t.1) scored)))

      unfoldable pub keyword_search :
          (F → F)
          → (Text → Text)
          → String
          → ℕ
          → Option (Dict String String)
          → Option (List String)
          → List (Row J)
          → Result (List (SearchHit F))
      unfolding kept ranked bm25_scores tokenize zip_strict
      keyword_search log lower query top_k filters principals rows =
          let found = kept filters principals rows in
          ranked top_k (
            zip_strict found
              (bm25_scores fl log (tokenize lower query) (map (λ t. tokenize lower t.0) found)))
