-- ===== src/Index/Fusion/Origin.antt =====
-- The fused hits are hits of the rankings, but for their scores.
use alvis.Base.{ℕ, suc, ◌≡◌, refl, ap, sym, ◌∙◌, inl, inr, true, Option, none, some, List, [], ◌∷◌}
use alvis.Base.{◌==◌, string_eq, pair_eq, is_some, All, All-imp, Option-cases, Bool-cases}
use mathlib.Core.Bool.{false≢true}
use mathlib.Core.Option.{some-injective, none-ne-some}
use mathlib.Core.Path.{ap₂, subst}
use alvis.Base.Dict.{Dict, lookup, lookup-set_default, or_default}
use alvis.Base.Sort.{sort_desc}
use alvis.Base.Sort.Entries.{lookup-sort_desc}
use alvis.Models.{SearchHit}
use alvis.Floats.{Floats}
use alvis.Index.Fusion.{
  Key, identity, Fused, add_hit, add_ranking, add_rankings, fuse, copies, add_copy,
  reciprocal_rank_fusion,
}
use alvis.Index.Fusion.Ranks.{fuse-IsFused, entries_found}

module _ {F : Type 0} (fl : Floats F) (k : ℕ) (P : SearchHit F → Type 0)
    (any_score : (hit : SearchHit F) (score : F) → P hit → P (record hit { score = score })) where
  -- Each representative has the property.
  abbrev Keeps : Fused fl k → Type 0
  Keeps state = (key : Key) (hit : SearchHit F) → lookup key state.representative ≡ some hit → P hit

  default_keeps :
      (hit : SearchHit F) (o : Option (SearchHit F))
      → P hit
      → ((w : SearchHit F) → o ≡ some w → P w)
      → P (or_default hit o)
  default_keeps hit none p f = p
  default_keeps hit (some w) p f = f w refl

  add_hit-Keeps :
      (rank : ℕ) (hit : SearchHit F) (state : Fused fl k)
      → P hit
      → Keeps state
      → Keeps (add_hit fl k rank hit state)
  unfolding add_hit
  add_hit-Keeps rank hit state p h key found e =
      let q = lookup-set_default key (identity hit) hit state.representative in
      elim (Bool-cases (key == identity hit)) [
        | inl same ↦
            subst P (some-injective _ _ (rw (q, same) at e))
              (default_keeps hit (lookup (identity hit) state.representative) p (h (identity hit)))
        | inr other ↦ h key found (rw (q, other) at e)
      ]

  add_ranking-Keeps :
      (rank : ℕ) (hits : List (SearchHit F)) (state : Fused fl k)
      → All P hits
      → Keeps state
      → Keeps (add_ranking fl k rank hits state)
  unfolding add_ranking
  add_ranking-Keeps rank [] state ps h = h
  add_ranking-Keeps rank (hit ∷ hits) state ps h =
      add_ranking-Keeps (suc rank) hits (add_hit fl k rank hit state) ps.1
        (add_hit-Keeps rank hit state ps.0 h)

  add_rankings-Keeps :
      (rankings : List (List (SearchHit F))) (state : Fused fl k)
      → All (All P) rankings
      → Keeps state
      → Keeps (add_rankings fl k rankings state)
  unfolding add_rankings
  add_rankings-Keeps [] state ps h = h
  add_rankings-Keeps (ranking ∷ rest) state ps h =
      add_rankings-Keeps rest (add_ranking fl k 1 ranking state) ps.1
        (add_ranking-Keeps 1 ranking state ps.0 h)

  copies-All :
      (representative : Dict Key (SearchHit F)) (items : List (Key × F))
      → ((key : Key) (hit : SearchHit F) → lookup key representative ≡ some hit → P hit)
      → All (λ (t : Key × F). is_some (lookup t.0 representative) ≡ true) items
      → (hits : List (SearchHit F)) × (copies fl k representative items ≡ some hits) × All P hits
  unfolding copies
  copies-All representative [] keeps found = ([], refl, tt)
  copies-All representative ((key, score) ∷ items) keeps found =
      let (hits, e, h) = copies-All representative items keeps found.1 in
      elim (Option-cases (lookup key representative)) [
        | inl absent ↦ absurd (false≢true (rw absent at found.0))
        | inr (hit, here) ↦ (
          record hit { score = score } ∷ hits,
          ap₂ (add_copy fl k score) here e,
          (any_score hit score (keeps key hit here), h),
        )
      ]

  -- What all hits of the rankings have, whatever their scores, all fused hits have; and fusing does
  -- not raise.
  pub reciprocal_rank_fusion-All :
      (rankings : List (List (SearchHit F)))
      → All (All P) rankings
      → (hits : List (SearchHit F)) × (reciprocal_rank_fusion fl k rankings ≡ some hits)
        × All P hits
  unfolding reciprocal_rank_fusion
  reciprocal_rank_fusion-All rankings ps =
      let state = fuse fl k rankings in
      let h = fuse-IsFused fl k rankings in
      let items = sort_desc fl.lt (λ (t : Key × F). t.1) state.fused in
      copies-All state.representative items
        (unfold fuse lookup in
          add_rankings-Keeps rankings (record { fused = []; representative = [] }) ps
            (λ key hit e. absurd (none-ne-some hit e)))
        (All-imp items
          (λ t found.
            h.both t.0 (sym (ap is_some (lookup-sort_desc fl.lt t.0 state.fused h.once)) ∙ found))
          (entries_found fl k items))
