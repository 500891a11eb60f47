-- ===== src/Tests/SqliteRuns.antt =====
-- The SQLite index beside the in-memory index, after the same writes.
use alvis.Base.{String, ℕ, ◌≡◌, refl, none, List, [], ◌∷◌, map, string_eq}
use mathlib.Core.Path.{subst}
use alvis.Models.{Chunk, Metadata, SearchHit}
use alvis.Errors.{Result, ok, err}
use alvis.Index.Math.{cosine_similarity, clamp}
use alvis.Index.Memory.{empty_index}
use alvis.Index.Memory
use alvis.Index.Sqlite.{Json, count, search, keyword_search}
use alvis.Index.Sqlite.Table.{IsCodec}
use alvis.Index.Sqlite.Refinement.{
  Write, upserts, reconciles, written_index, written_table, sqlite_refines,
}
use alvis.Tests.Fixtures.{whole, plain, repr}

-- A column holds what it encodes.
abbrev json : Json (Metadata × List ℕ) ℕ
json = record {
  dumps = λ m. (m, []);
  loads = λ j. j.0;
  dumps_vector = λ v. ([], v);
  loads_vector = λ j. j.1;
}

json-IsCodec : IsCodec json
json-IsCodec = record { metadata_back = λ m. refl; vector_back = λ v. refl }

abbrev chunk : String → String → Chunk
chunk uri body = record { text = body; source_uri = uri; metadata = [] }

abbrev writes : List (Write ℕ)
writes =
    upserts (chunk "a.md" "alpha beta") (2 ∷ 1 ∷ []) "docs" "h1"
    ∷ upserts (chunk "b.md" "beta") (1 ∷ 2 ∷ []) "docs" "h2"
    ∷ upserts (chunk "c.md" "gamma") (3 ∷ 3 ∷ []) "wiki" "h3"
    ∷ reconciles "docs" (("a.md", "h1") ∷ [])
    ∷ []

abbrev uris : Result (List (SearchHit ℕ)) → List String
uris (ok hits) = map (λ h. h.source_uri) hits
uris (err e) = []

found :
    uris (search json repr whole (1 ∷ 0 ∷ []) 5 none none (written_table plain json writes []))
    ≡ "c.md" ∷ "a.md" ∷ []
unfolding search written_table string_eq
found = refl

by_keyword :
    uris (
      keyword_search json repr whole
        (λ x. x)
        (λ t. t)
        "gamma"
        1
        none
        none
        (written_table plain json writes []))
    ≡ "c.md" ∷ []
unfolding keyword_search written_table string_eq
by_keyword = refl

-- Similarities that the clamp cuts: the SQLite index ranks what it has cut, the other what it has not.
abbrev beyond : List (Write ℕ)
beyond =
    upserts (chunk "a.md" "alpha") (1500 ∷ []) "docs" "h1"
    ∷ upserts (chunk "b.md" "beta") (2000 ∷ []) "docs" "h2"
    ∷ []

differently :
    (uris (search json repr whole (1 ∷ []) 5 none none (written_table plain json beyond []))
      ≡ "a.md" ∷ "b.md" ∷ [])
    × (uris (Memory.search repr whole (1 ∷ []) 5 none none (written_index plain beyond empty_index))
        ≡ "b.md" ∷ "a.md" ∷ [])
unfolding search Memory.search written_table written_index string_eq
differently = (refl, refl)

in_range : (n s : ℕ) → clamp whole n ≡ n → ok n ≡ ok s → clamp whole s ≡ s
in_range n s h e = let same : n ≡ s = cc e in subst (λ t. clamp whole t ≡ t) same h

sqlite_refines_example :
    let table = written_table plain json writes [] in
    let index = written_index plain writes empty_index in
    (count table ≡ Memory.count index)
    × (keyword_search json repr whole (λ x. x) (λ t. t) "gamma" 1 none none table
        ≡ Memory.keyword_search repr whole (λ x. x) (λ t. t) "gamma" 1 none none index)
    × (search json repr whole (1 ∷ 0 ∷ []) 1 none none table
        ≡ Memory.search repr whole (1 ∷ 0 ∷ []) 1 none none index)
unfolding written_index cosine_similarity clamp string_eq
sqlite_refines_example =
    sqlite_refines json json-IsCodec plain repr whole (λ x. x) (λ t. t) writes "gamma" (1 ∷ 0 ∷ [])
      1 none none ((λ s. in_range 2 s refl), ((λ s. in_range 3 s refl), tt))
