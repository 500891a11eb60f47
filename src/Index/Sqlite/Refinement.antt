-- ===== src/Index/Sqlite/Refinement.antt =====
-- The SQLite index behaves as the in-memory index, after every sequence of writes.
use alvis.Base.{String, string_eq, ℕ, ◌≡◌, refl, sym, ap, ◌∙◌, Option, List, [], ◌∷◌, ◌&&◌}
use mathlib.Core.Path.{subst}
use alvis.Base.{All, All-filterb_of}
use alvis.Base.Dict.{Dict, values, NodupKeys, filter_items-NodupKeys}
use alvis.Value.{Value}
use alvis.Models.{Chunk}
use alvis.Floats.{Floats}
use alvis.Text.{Text}
use alvis.Index.Acl.{acl_visible}
use alvis.Index.Filters.{matches}
use alvis.Index.Memory.{MemoryIndex, Point, empty_index, candidates}
use alvis.Index.Memory
use alvis.Index.Memory.Store.{upsert-NodupKeys}
use alvis.Index.Sqlite.{Json, Row, upsert, reconcile, search, keyword_search, count}
use alvis.Index.Sqlite.Table.{
  IsCodec, entries, index_of, upsert_refines, reconcile_refines, count_refines,
}
use alvis.Index.Sqlite.Scans.{IsInRange, search_refines, keyword_search_refines}

pub data Write (F : Type 0) : Type 0 where
  upserts : Chunk → List F → String → String → Write F
  reconciles : String → Dict String String → Write F

module _ {F : Type 0} (uuid5 : String → String) where
  write_index : Write F → MemoryIndex F → MemoryIndex F
  unfolding Memory.upsert Memory.reconcile
  write_index (upserts chunk vector source_id hash) =
      Memory.upsert uuid5 chunk vector source_id hash
  write_index (reconciles source_id current) = Memory.reconcile source_id current

  -- The in-memory index after the writes.
  unfoldable pub written_index : List (Write F) → MemoryIndex F → MemoryIndex F
  unfolding write_index
  written_index [] index = index
  written_index (w ∷ writes) index = written_index writes (write_index w index)

  write_index-NodupKeys :
      (w : Write F) (index : MemoryIndex F)
      → NodupKeys index.points
      → NodupKeys (write_index w index).points
  unfolding write_index Memory.reconcile
  write_index-NodupKeys (upserts chunk vector source_id hash) index h =
      upsert-NodupKeys uuid5 chunk vector source_id hash index h
  write_index-NodupKeys (reconciles source_id current) index h =
      filter_items-NodupKeys _ index.points h

  module _ {J : Type 0} (json : Json J F) where
    write_table : Write F → List (Row J) → List (Row J)
    unfolding upsert reconcile
    write_table (upserts chunk vector source_id hash) =
        upsert json uuid5 chunk vector source_id hash
    write_table (reconciles source_id current) = reconcile source_id current

    -- The table after the writes.
    unfoldable pub written_table : List (Write F) → List (Row J) → List (Row J)
    unfolding write_table
    written_table [] rows = rows
    written_table (w ∷ writes) rows = written_table writes (write_table w rows)

    module _ (codec : IsCodec json) where
      write_refines :
          (w : Write F) (rows : List (Row J))
          → NodupKeys (entries json rows)
          → index_of json (write_table w rows) ≡ write_index w (index_of json rows)
      unfolding write_table write_index
      write_refines (upserts chunk vector source_id hash) rows h =
          upsert_refines json codec uuid5 chunk vector source_id hash rows
      write_refines (reconciles source_id current) rows h =
          reconcile_refines json source_id current rows h

      writes_refine :
          (writes : List (Write F)) (rows : List (Row J))
          → NodupKeys (entries json rows)
          → index_of json (written_table writes rows) ≡ written_index writes (index_of json rows)
      unfolding written_table written_index
      writes_refine [] rows h = refl
      writes_refine (w ∷ writes) rows h =
          let e = write_refines w rows h in
          writes_refine writes (write_table w rows) (
            subst (λ (i : MemoryIndex F). NodupKeys i.points) (sym e)
              (write_index-NodupKeys w (index_of json rows) h))
          ∙ ap (written_index writes) e

module _ {J F : Type 0} (json : Json J F) (codec : IsCodec json) (uuid5 : String → String)
    (repr : Value → String) (fl : Floats F) (log : F → F) (lower : Text → Text)
    (writes : List (Write F)) where
  Stored : List F → MemoryIndex F → Type 0
  Stored vector index = All (IsInRange fl vector) (values index.points)

  in_range :
      (vector : List F) (filters : Option (Dict String String))
      → (principals : Option (List String)) (table : List (Row J))
      → Stored vector (index_of json table)
      → All
          (IsInRange fl vector)
          (candidates repr fl filters principals (values (entries json table)))
  unfolding Stored candidates
  in_range vector filters principals table h =
      All-filterb_of (IsInRange fl vector)
        (λ p. matches repr p.chunk.metadata filters && acl_visible repr p.chunk.metadata principals)
        (values (entries json table)) h

  -- After the same upserts and reconciles, from empty, the SQLite index counts as many points as the
  -- in-memory index and answers a keyword search and a vector search alike, errors included. Decoding
  -- gives back what JSON has encoded, rows are read in the order of their insertion, and the clamp
  -- leaves the similarities of the vector to the stored ones alone.
  pub sqlite_refines :
      (query : String) (vector : List F) (top_k : ℕ) (filters : Option (Dict String String))
      → (principals : Option (List String))
      → All (IsInRange fl vector) (values (written_index uuid5 writes empty_index).points)
      → let table = written_table uuid5 json writes [] in
        let index = written_index uuid5 writes empty_index in
        (count table ≡ Memory.count index)
        × (keyword_search json repr fl log lower query top_k filters principals table
            ≡ Memory.keyword_search repr fl log lower query top_k filters principals index)
        × (search json repr fl vector top_k filters principals table
            ≡ Memory.search repr fl vector top_k filters principals index)
  unfolding Stored
  sqlite_refines query vector top_k filters principals h =
      let table = written_table uuid5 json writes [] in
      let same = writes_refine uuid5 json codec writes [] tt in
      (
        count_refines json table ∙ ap Memory.count same,
        keyword_search_refines json repr fl log lower query top_k filters principals table
            ∙ ap (Memory.keyword_search repr fl log lower query top_k filters principals) same,
        search_refines json repr fl vector top_k filters principals table
              (in_range vector filters principals table (subst (Stored vector) (sym same) h))
            ∙ ap (Memory.search repr fl vector top_k filters principals) same,
      )
