-- ===== src/Index/Fusion.antt =====
-- index/fusion.py: reciprocal rank fusion of several rankings.
pub mod Ranks
pub mod Origin
use alvis.Base.{
  String, ℕ, suc, ◌+◌, Bool, true, false, Option, none, some, List, [], ◌∷◌, ◌++◌, map,
}
use alvis.Base.{Eq, ◌==◌, string_eq, pair_eq, if◌then◌else◌}
use alvis.Base.Dict.{Dict, lookup, insert, set_default}
use alvis.Base.Sort.{sort_desc}
use alvis.Models.{SearchHit}
use alvis.Floats.{Floats}

abbrev pub Key : Type 0
Key = String × String

-- `_identity`
abbrev pub identity : {F : Type 0} → SearchHit F → Key
identity hit = (hit.source_uri, hit.text)

abbrev pub or_zero : {F : Type 0} → F → Option F → F
or_zero z none = z
or_zero z (some x) = x

module _ {F : Type 0} (fl : Floats F) (k : ℕ) where
  -- `1.0 / (k + rank)`
  unfoldable pub contribution : ℕ → F
  contribution rank = fl.div fl.one (fl.of_nat (k + rank))

  pub record Fused : Type 0 where
    pub fused : Dict Key F
    pub representative : Dict Key (SearchHit F)

  -- One round of the inner loop.
  unfoldable pub add_hit : ℕ → SearchHit F → Fused → Fused
  unfolding contribution lookup insert set_default pair_eq string_eq
  add_hit rank hit state = record {
    fused =
        insert (identity hit)
          (fl.add (or_zero fl.zero (lookup (identity hit) state.fused)) (contribution rank))
          state.fused;
    representative = set_default (identity hit) hit state.representative;
  }

  -- The inner loop from a rank on, and the outer loop.
  unfoldable pub add_ranking : ℕ → List (SearchHit F) → Fused → Fused
  unfolding add_hit
  add_ranking rank [] state = state
  add_ranking rank (hit ∷ hits) state = add_ranking (suc rank) hits (add_hit rank hit state)

  unfoldable pub add_rankings : List (List (SearchHit F)) → Fused → Fused
  unfolding add_ranking
  add_rankings [] state = state
  add_rankings (ranking ∷ rest) state = add_rankings rest (add_ranking 1 ranking state)

  unfoldable pub fuse : List (List (SearchHit F)) → Fused
  unfolding add_rankings
  fuse rankings = add_rankings rankings (record { fused = []; representative = [] })

  -- `representative[key].model_copy(update={"score": score})`; without one it would be a KeyError.
  add_copy : F → Option (SearchHit F) → Option (List (SearchHit F)) → Option (List (SearchHit F))
  add_copy score (some hit) (some hits) = some (record hit { score = score } ∷ hits)
  add_copy score _ _ = none

  unfoldable pub copies : Dict Key (SearchHit F) → List (Key × F) → Option (List (SearchHit F))
  unfolding add_copy lookup pair_eq string_eq
  copies representative [] = some []
  copies representative ((key, score) ∷ rest) =
      add_copy score (lookup key representative) (copies representative rest)

  -- `reciprocal_rank_fusion`
  unfoldable pub reciprocal_rank_fusion : List (List (SearchHit F)) → Option (List (SearchHit F))
  unfolding fuse copies sort_desc
  reciprocal_rank_fusion rankings =
      let state = fuse rankings in
      copies state.representative (sort_desc fl.lt (λ item. item.1) state.fused)
