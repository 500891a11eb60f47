-- ===== src/Index/Memory/Store.antt =====
-- What `upsert` and `reconcile` leave in the in-memory index.
use alvis.Base.{◌↔◌, ◌⊎◌, String, ◌≡◌, ◌≢◌, refl, ap, Bool, false, not, some, List, [], ◌∷◌, arith}
use alvis.Base.{◌==◌, string_eq, if◌then◌else◌}
use alvis.Base.Dict.{
  Dict, lookup, filter_items, NodupKeys, lookup-insert, lookup-insert_self, insert_same,
  insert-NodupKeys,
}
use alvis.Base.Dict.{lookup-filter_items_iff}
use alvis.Models.{Chunk, point_id}
use alvis.Index.Memory.{Point, MemoryIndex, upsert, reconcile, is_stale}

module _ {F : Type 0} (uuid5 : String → String) (c : Chunk) (v : List F) (s h : String) where
  -- An upsert stores the chunk, its vector, its source and its hash under the chunk's identifier,
  -- keeps every other point, and does nothing when it is repeated.
  pub upsert_lem :
      (index : MemoryIndex F)
      → ((pid : String)
          → lookup pid (upsert uuid5 c v s h index).points ≡ (
              if pid == point_id uuid5 c.source_uri c.text
              then some (record { source_id = s; artifact_hash = h; chunk = c; vector = v })
              else lookup pid index.points))
        × (upsert uuid5 c v s h (upsert uuid5 c v s h index) ≡ upsert uuid5 c v s h index)
  unfolding upsert
  upsert_lem index = (
    λ pid. lookup-insert pid _ _ index.points,
    ap (λ (ps : Dict String (Point F)). record { points = ps })
        (insert_same _ _ _ (lookup-insert_self _ _ index.points)),
  )

  pub upsert-NodupKeys :
      (index : MemoryIndex F)
      → NodupKeys index.points
      → NodupKeys (upsert uuid5 c v s h index).points
  unfolding upsert
  upsert-NodupKeys index u = insert-NodupKeys _ _ index.points u

module _ {ℓ κ} {K : Type ℓ} {V : Type κ} (keep : K → V → Bool) where
  filter_items_idem : (d : Dict K V) → filter_items keep (filter_items keep d) ≡ filter_items keep d
  unfolding filter_items
  filter_items_idem [] = refl
  filter_items_idem ((k, v) ∷ d) = ground (arith, filter_items_idem d)

module _ {F : Type 0} (source_id : String) (current : Dict String String) where
  is_stale_iff :
      (p : Point F)
      → (is_stale source_id current p ≡ false)
        ↔ ((p.source_id ≢ source_id) ⊎ (lookup p.chunk.source_uri current ≡ some p.artifact_hash))
  unfolding is_stale
  is_stale_iff p = ground arith

  kept_iff :
      (pid : String) (p : Point F) (points : Dict String (Point F))
      → NodupKeys points
      → (lookup pid (filter_items (λ pid p. not (is_stale source_id current p)) points) ≡ some p)
        ↔ ((lookup pid points ≡ some p)
            × ((p.source_id ≢ source_id)
                ⊎ (lookup p.chunk.source_uri current ≡ some p.artifact_hash)))
  kept_iff pid p points u =
      let at =
        lookup-filter_items_iff (λ pid p. not (is_stale source_id current p)) pid points p u in
      (
        λ h. ((at.0 h).0, (is_stale_iff p).0 (ground (arith, at.0 h))),
        λ t. at.1 (t.0, ground (arith, (is_stale_iff p).1 t.1)),
      )

  -- `reconcile` keeps, of an index that holds each identifier once, exactly the points of other
  -- sources and the points whose uri has their hash in `current`, and a second time changes nothing.
  pub reconcile_lem :
      (index : MemoryIndex F)
      → NodupKeys index.points
      → ((pid : String) (p : Point F)
          → (lookup pid (reconcile source_id current index).points ≡ some p) ↔ (
              (lookup pid index.points ≡ some p)
              × ((p.source_id ≢ source_id)
                  ⊎ (lookup p.chunk.source_uri current ≡ some p.artifact_hash))))
        × (reconcile source_id current (reconcile source_id current index)
            ≡ reconcile source_id current index)
  unfolding reconcile
  reconcile_lem index u = (
    λ pid p. kept_iff pid p index.points u,
    ap (λ (ps : Dict String (Point F)). record { points = ps }) (filter_items_idem _ index.points),
  )
