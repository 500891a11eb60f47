-- ===== src/Index/Sqlite/Table.antt =====
-- Writing and pruning the table is what the in-memory index does with its points.
use alvis.Base.{
  String, ◌≡◌, refl, ap, ◌∙◌, Bool, false, not, none, List, [], ◌∷◌, map, arith, inl, inr,
}
use alvis.Base.{◌==◌, string_eq, contains, ==_refl, filterb, Bool-cases, length}
use alvis.Base.Dict.{Dict, lookup, insert, filter_items, NodupKeys}
use alvis.Models.{Chunk, Metadata}
use alvis.Index.Memory.{Point, MemoryIndex, is_stale}
use alvis.Index.Memory
use alvis.Index.Sqlite.{Json, Row, write_row, delete_ids, is_outdated, upsert, reconcile, count}

-- Decoding gives back what has been encoded.
pub record IsCodec {J F : Type 0} (json : Json J F) : Type 0 where
  pub metadata_back : (m : Metadata) → json.loads (json.dumps m) ≡ m
  pub vector_back : (v : List F) → json.loads_vector (json.dumps_vector v) ≡ v

module _ {J F : Type 0} (json : Json J F) where
  -- The point that a row stands for.
  abbrev pub point_of : Row J → Point F
  point_of r = record {
    source_id = r.source_id;
    artifact_hash = r.artifact_hash;
    chunk = record { text = r.text; source_uri = r.uri; metadata = json.loads r.metadata };
    vector = json.loads_vector r.vector;
  }

  abbrev pub entries : List (Row J) → Dict String (Point F)
  entries [] = []
  entries (r ∷ rows) = (r.id, point_of r) ∷ entries rows

  -- The in-memory index that a table stands for.
  abbrev pub index_of : List (Row J) → MemoryIndex F
  index_of rows = record { points = entries rows }

  entries-write_row :
      (row : Row J) (rows : List (Row J))
      → entries (write_row row rows) ≡ insert row.id (point_of row) (entries rows)
  unfolding write_row insert
  entries-write_row row [] = refl
  entries-write_row row (r ∷ rows) = elim (Bool-cases (row.id == r.id)) [
    | inl e ↦ rw e refl
    | inr e ↦ rw e (ap (λ d. (r.id, point_of r) ∷ d) (entries-write_row row rows))
  ]

  drop_one :
      (pid : String) (ids : List String) (rows : List (Row J))
      → filterb (λ r. not (contains r.id ids)) (filterb (λ r. not (r.id == pid)) rows)
        ≡ filterb (λ r. not (contains r.id (pid ∷ ids))) rows
  drop_one pid ids [] = refl
  drop_one pid ids (r ∷ rows) = ground (arith, drop_one pid ids rows)

  delete_ids-eq-filterb :
      (ids : List String) (rows : List (Row J))
      → delete_ids ids rows ≡ filterb (λ r. not (contains r.id ids)) rows
  unfolding delete_ids
  delete_ids-eq-filterb [] [] = refl
  delete_ids-eq-filterb [] (r ∷ rows) = ap (λ rs. r ∷ rs) (delete_ids-eq-filterb [] rows)
  delete_ids-eq-filterb (pid ∷ ids) rows =
      delete_ids-eq-filterb ids (filterb (λ r. not (r.id == pid)) rows) ∙ drop_one pid ids rows

  -- An identifier that no row has.
  module _ (k : String) where
    absent :
        (test : Row J → Bool) (rows : List (Row J))
        → lookup k (entries rows) ≡ none
        → contains k (map (λ r. r.id) (filterb test rows)) ≡ false
    unfolding lookup
    absent test [] h = refl
    absent test (r ∷ rows) h = ground (arith, absent test rows)

    skip :
        (ids : List String) (rows : List (Row J))
        → lookup k (entries rows) ≡ none
        → filterb (λ r. not (contains r.id (k ∷ ids))) rows
          ≡ filterb (λ r. not (contains r.id ids)) rows
    unfolding lookup
    skip ids [] h = refl
    skip ids (r ∷ rows) h = ground (arith, skip ids rows)

  abbrev ids_of : (Row J → Bool) → List (Row J) → List String
  ids_of test rows = map (λ r. r.id) (filterb test rows)

  abbrev dropped : List String → List (Row J) → List (Row J)
  dropped ids rows = filterb (λ r. not (contains r.id ids)) rows

  delete_found :
      (test : Row J → Bool) (rows : List (Row J))
      → NodupKeys (entries rows)
      → dropped (ids_of test rows) rows ≡ filterb (λ r. not (test r)) rows
  delete_found test [] h = refl
  delete_found test (r ∷ rows) (new, h) = elim (Bool-cases (test r)) [
    | inl e ↦
        let ids : ids_of test (r ∷ rows) ≡ r.id ∷ ids_of test rows = rw e refl in
        let here : dropped (r.id ∷ ids_of test rows) (r ∷ rows)
            ≡ dropped (r.id ∷ ids_of test rows) rows =
          rw (==_refl r.id) refl in
        ap (λ ids. dropped ids (r ∷ rows)) ids
        ∙ here
        ∙ skip r.id (ids_of test rows) rows new
        ∙ delete_found test rows h
        ∙ rw e refl
    | inr e ↦
        let ids : ids_of test (r ∷ rows) ≡ ids_of test rows = rw e refl in
        let here : dropped (ids_of test rows) (r ∷ rows) ≡ r ∷ dropped (ids_of test rows) rows =
          rw (absent r.id test rows new) refl in
        ap (λ ids. dropped ids (r ∷ rows)) ids
        ∙ here
        ∙ ap (λ rs. r ∷ rs) (delete_found test rows h)
        ∙ rw e refl
  ]

  entries-filterb :
      (source_id : String) (current : Dict String String) (rows : List (Row J))
      → entries (filterb (λ r. not (is_outdated source_id current r)) rows)
        ≡ filter_items (λ pid p. not (is_stale source_id current p)) (entries rows)
  unfolding filter_items is_outdated is_stale
  entries-filterb source_id current [] = refl
  entries-filterb source_id current (r ∷ rows) =
      ground (arith, entries-filterb source_id current rows)

  pub reconcile_refines :
      (source_id : String) (current : Dict String String) (rows : List (Row J))
      → NodupKeys (entries rows)
      → index_of (reconcile source_id current rows)
        ≡ Memory.reconcile source_id current (index_of rows)
  unfolding reconcile Memory.reconcile
  reconcile_refines source_id current rows h =
      ap (λ (d : Dict String (Point F)). record { points = d })
        (ap entries
            (delete_ids-eq-filterb _ rows ∙ delete_found (is_outdated source_id current) rows h)
          ∙ entries-filterb source_id current rows)

  pub upsert_refines :
      IsCodec json
      → (uuid5 : String → String) (chunk : Chunk) (vector : List F) (source_id hash : String)
      → (rows : List (Row J))
      → index_of (upsert json uuid5 chunk vector source_id hash rows)
        ≡ Memory.upsert uuid5 chunk vector source_id hash (index_of rows)
  unfolding upsert Memory.upsert
  upsert_refines codec uuid5 chunk vector source_id hash rows =
      ap (λ (d : Dict String (Point F)). record { points = d })
        (entries-write_row _ rows
          ∙ rw (codec.metadata_back chunk.metadata, codec.vector_back vector) refl)

  length-entries : (rows : List (Row J)) → length (entries rows) ≡ length rows
  length-entries [] = refl
  length-entries (r ∷ rows) = omega (arith, length-entries rows)

  pub count_refines : (rows : List (Row J)) → count rows ≡ Memory.count (index_of rows)
  unfolding count Memory.count
  count_refines rows = omega (arith, length-entries rows)
