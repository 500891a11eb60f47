-- ===== src/Tests/IndexRuns.antt =====
-- The in-memory index on small data.
use alvis.Base.{
  String, ℕ, ◌≡◌, ◌≢◌, ◌↔◌, ◌⊎◌, refl, true, false, none, some, List, [], ◌∷◌, string_eq, filterb,
  ◌&&◌, contains, All, ◌==◌, if◌then◌else◌,
}
use alvis.Base.Dict.{lookup, values, filter_items}
use alvis.Value.{text, seq, cons, nil, str}
use alvis.Models.{Metadata, SearchHit, point_id}
use alvis.Errors.{ok}
use alvis.Index.Acl.{acl_visible, acl_of, acl_visible_iff}
use alvis.Index.Filters.{matches}
use alvis.Index.Memory.{Point, MemoryIndex, empty_index, upsert, reconcile, search}
use alvis.Index.Memory.Store.{upsert_lem, reconcile_lem}
use alvis.Index.Memory.Search.{IsBest, search-IsBest, search_hidden, search_total}
use alvis.Tests.Fixtures.{repr, plain, whole, whole_order, whole_roots, chunk_a, chunk_b}

abbrev restricted : Metadata
restricted = ("acl", seq (cons (text "eng") (cons (text "ops") nil))) ∷ []

acl_visible_iff_example : (acl_visible repr restricted (some ("ops" ∷ [])) ≡ true) ↔ (
    (acl_of repr restricted ≡ [])
    ⊎ ((a : String) × (contains a (acl_of repr restricted) ≡ true)
        × (contains a ("ops" ∷ []) ≡ true)))
acl_visible_iff_example = acl_visible_iff repr restricted ("ops" ∷ [])

hidden : acl_visible repr restricted (some ("hr" ∷ [])) ≡ false
unfolding acl_visible str string_eq
hidden = refl

two_points : MemoryIndex ℕ
unfolding upsert string_eq
two_points =
    upsert plain chunk_b (3 ∷ 4 ∷ []) "fs" "hb"
      (upsert plain chunk_a (1 ∷ 2 ∷ []) "fs" "ha" empty_index)

upsert_lem_example :
    ((pid : String)
      → lookup pid (upsert plain chunk_a (7 ∷ []) "s3" "hc" two_points).points ≡ (
          if pid == point_id plain "a.md" "alpha"
          then some
              (record { source_id = "s3"; artifact_hash = "hc"; chunk = chunk_a; vector = 7 ∷ [] })
          else lookup pid two_points.points))
    × (upsert plain chunk_a (7 ∷ []) "s3" "hc" (upsert plain chunk_a (7 ∷ []) "s3" "hc" two_points)
        ≡ upsert plain chunk_a (7 ∷ []) "s3" "hc" two_points)
upsert_lem_example = upsert_lem plain chunk_a (7 ∷ []) "s3" "hc" two_points

reconcile_lem_example :
    ((pid : String) (p : Point ℕ)
      → (lookup pid (reconcile "fs" (("a.md", "ha") ∷ []) two_points).points ≡ some p) ↔ (
          (lookup pid two_points.points ≡ some p)
          × ((p.source_id ≢ "fs")
              ⊎ (lookup p.chunk.source_uri (("a.md", "ha") ∷ []) ≡ some p.artifact_hash))))
    × (reconcile "fs" (("a.md", "ha") ∷ []) (reconcile "fs" (("a.md", "ha") ∷ []) two_points)
        ≡ reconcile "fs" (("a.md", "ha") ∷ []) two_points)
unfolding two_points lookup
reconcile_lem_example = reconcile_lem "fs" (("a.md", "ha") ∷ []) two_points (refl, (refl, tt))

query_hits : List (SearchHit ℕ)
query_hits =
    record { text = "beta"; source_uri = "b.md"; metadata = chunk_b.metadata; score = 7 }
    ∷ record { text = "alpha"; source_uri = "a.md"; metadata = chunk_a.metadata; score = 3 }
    ∷ []

found : search repr whole (1 ∷ 1 ∷ []) 5 none (some ("eng" ∷ [])) two_points ≡ ok query_hits
unfolding search two_points query_hits string_eq
found = refl

search-IsBest_example :
    All
      (λ (h : SearchHit ℕ).
        (matches repr h.metadata none ≡ true)
        × (acl_visible repr h.metadata (some ("eng" ∷ [])) ≡ true))
      query_hits
    × IsBest repr whole
        (1 ∷ 1 ∷ [])
        5
        (filterb
          (λ p.
            matches repr p.chunk.metadata none
            && acl_visible repr p.chunk.metadata (some ("eng" ∷ [])))
          (values two_points.points))
        query_hits
search-IsBest_example =
    search-IsBest repr whole whole_order (1 ∷ 1 ∷ []) 5 none (some ("eng" ∷ [])) two_points
      query_hits found

search_hidden_example :
    search repr whole (1 ∷ 1 ∷ []) 5 none (some ("hr" ∷ [])) (record {
      points =
          filter_items
            (λ pid p. acl_visible repr p.chunk.metadata (some ("hr" ∷ [])))
            two_points.points;
    })
    ≡ search repr whole (1 ∷ 1 ∷ []) 5 none (some ("hr" ∷ [])) two_points
search_hidden_example = search_hidden repr whole (1 ∷ 1 ∷ []) 5 none (some ("hr" ∷ [])) two_points

search_total_example :
    (hits : List (SearchHit ℕ)) × (search repr whole (1 ∷ 1 ∷ []) 1 none none two_points ≡ ok hits)
unfolding two_points
search_total_example =
    search_total repr whole (1 ∷ 1 ∷ []) 1 none none whole_roots two_points (refl, (refl, tt))
