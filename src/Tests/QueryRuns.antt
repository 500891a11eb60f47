-- ===== src/Tests/QueryRuns.antt =====
-- Fusing, reranking and citing three hits.
use alvis.Base.{String, ℕ, ◌/◌, ◌≡◌, refl, ◌&&◌, none, some, List, [], ◌∷◌, string_eq, pair_eq}
use alvis.Base.{All, take}
use alvis.Base.Dict.{lookup, NodupKeys}
use alvis.Base.Sort.{IsSortedDesc}
use mathlib.Core.List.{Perm}
use alvis.Models.{SearchHit}
use alvis.Errors.{Result, ok}
use alvis.Floats.{Floats}
use alvis.Text.{Text, to_list, is_char, is_space}
use alvis.Answer.{Citation, build_answer, markers, in_range, cited_indices}
use alvis.Answer.Citations.{IsAscending, IsCitation, indices, has, build_answer_lem}
use alvis.Rerank.{rerank}
use alvis.Rerank.Order.{rerank_lem}
use alvis.Index.Fusion.{Key, reciprocal_rank_fusion}
use alvis.Index.Fusion.Ranks.{Stands, tally, reciprocal_rank_fusion_lem}
use alvis.Tests.Fixtures.{whole, whole_order}

abbrev hit : String → String → SearchHit ℕ
hit uri body = record { text = body; source_uri = uri; metadata = []; score = 1 }

abbrev pub three : List (SearchHit ℕ)
three = hit "a.md" "alpha" ∷ hit "b.md" "beta" ∷ hit "c.md" "gamma" ∷ []

abbrev cited_text : Text
cited_text = to_list "As said [3], and [1]; see [3], [7], [x] and [0012]."

cited : cited_indices cited_text 3 ≡ 1 ∷ 3 ∷ []
unfolding cited_indices is_char
cited = refl

build_answer_lem_example :
    (cs : List (Citation ℕ)) × (build_answer cited_text three
      ≡ ok (record { text = cited_text; citations = cs }))
    × IsAscending (indices three cs)
    × All (IsCitation three) cs
    × ((k : ℕ) → has k (indices three cs) ≡ (in_range 3 k && has k (markers cited_text)))
build_answer_lem_example = build_answer_lem three cited_text

abbrev reply : Result Text
reply = ok (to_list "The order is [3, 1 ,2].")

reordered : rerank reply three 2 ≡ ok (hit "c.md" "gamma" ∷ hit "a.md" "alpha" ∷ [])
unfolding rerank is_char is_space
reordered = refl

-- A number twice is no order, so the old one stays.
kept : rerank (ok (to_list "[3, 3, 2]")) three 2 ≡ ok (take 2 three)
unfolding rerank is_char is_space
kept = refl

rerank_lem_example :
    (ys : List (SearchHit ℕ)) × Perm ys three × (rerank reply three 2 ≡ ok (take 2 ys))
rerank_lem_example = rerank_lem reply three 2

-- Division for the contributions of ranks, in thousandths.
abbrev thousandths : Floats ℕ
thousandths = record whole { div = λ a b. a / b }

abbrev rankings : List (List (SearchHit ℕ))
rankings = (hit "a.md" "alpha" ∷ hit "b.md" "beta" ∷ []) ∷ (hit "b.md" "beta" ∷ []) ∷ []

fused :
    reciprocal_rank_fusion thousandths 60 rankings
    ≡ some (
        record (hit "b.md" "beta") { score = 32 } ∷ record (hit "a.md" "alpha") { score = 16 } ∷ [])
unfolding reciprocal_rank_fusion
fused = refl

reciprocal_rank_fusion_lem_example :
    (items : List (Key × ℕ)) × (hits : List (SearchHit ℕ)) × (reciprocal_rank_fusion thousandths 60
        rankings
      ≡ some hits)
    × Stands thousandths 60 items hits
    × IsSortedDesc thousandths.lt (λ (t : Key × ℕ). t.1) items
    × NodupKeys items
    × ((key : Key) → lookup key items ≡ tally thousandths 60 key rankings none)
reciprocal_rank_fusion_lem_example = reciprocal_rank_fusion_lem thousandths 60 whole_order rankings
