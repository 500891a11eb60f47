-- ===== src/Index/Fusion/Ranks.antt =====
-- What the fused ranking holds, and in which order.
use alvis.Base.{ℕ, suc, ◌≡◌, refl, ap, sym, ◌∙◌, inl, inr, true, Option, none, some, List, [], ◌∷◌}
use alvis.Base.{
  ◌==◌, string_eq, pair_eq, if◌then◌else◌, is_some, All, Option-cases, Bool-cases, ==→eq,
}
use mathlib.Core.Bool.{false≢true}
use mathlib.Core.Path.{ap₂}
use alvis.Base.{All-imp, if_cases, ==_refl}
use alvis.Base.Sort.Entries.{lookup-sort_desc, sort_desc-NodupKeys}
use mathlib.Core.Option.{some-injective, none-ne-some}
use alvis.Base.Dict.{
  Dict, lookup, lookup-insert, lookup-set_default, or_default, insert-NodupKeys, NodupKeys,
}
use alvis.Base.Sort.{sort_desc, IsSortedDesc, IsStrictWeak, sort_desc-IsSortedDesc}
use alvis.Models.{SearchHit}
use alvis.Floats.{Floats}
use alvis.Index.Fusion.{
  Key, identity, or_zero, contribution, Fused, add_hit, add_ranking, add_rankings, fuse, copies,
  add_copy, reciprocal_rank_fusion,
}

module _ {F : Type 0} (fl : Floats F) (k : ℕ) where
  -- The sum of the contributions that a key has in the rankings, in their order.
  abbrev pub tally_hit : Key → ℕ → SearchHit F → Option F → Option F
  tally_hit key rank hit sum =
      if key == identity hit
      then some (fl.add (or_zero fl.zero sum) (contribution fl k rank))
      else sum

  abbrev pub tally_ranking : Key → ℕ → List (SearchHit F) → Option F → Option F
  tally_ranking key rank [] sum = sum
  tally_ranking key rank (hit ∷ hits) sum =
      tally_ranking key (suc rank) hits (tally_hit key rank hit sum)

  abbrev pub tally : Key → List (List (SearchHit F)) → Option F → Option F
  tally key [] sum = sum
  tally key (ranking ∷ rest) sum = tally key rest (tally_ranking key 1 ranking sum)

  -- What the loops keep: each key once, the keys of both dicts the same, representatives their own.
  pub record IsFused (state : Fused fl k) : Type 0 where
    pub once : NodupKeys state.fused
    pub both :
        (key : Key)
        → is_some (lookup key state.fused) ≡ true
        → is_some (lookup key state.representative) ≡ true
    pub own :
        (key : Key) (hit : SearchHit F)
        → lookup key state.representative ≡ some hit
        → identity hit ≡ key

  own_default :
      (hit : SearchHit F) (o : Option (SearchHit F))
      → ((w : SearchHit F) → o ≡ some w → identity w ≡ identity hit)
      → identity (or_default hit o) ≡ identity hit
  own_default hit none f = refl
  own_default hit (some w) f = f w refl

  add_hit-tally :
      (key : Key) (rank : ℕ) (hit : SearchHit F) (state : Fused fl k)
      → lookup key (add_hit fl k rank hit state).fused
        ≡ tally_hit key rank hit (lookup key state.fused)
  unfolding add_hit
  add_hit-tally key rank hit state =
      lookup-insert key (identity hit) _ state.fused ∙ elim (Bool-cases (key == identity hit)) [
        | inl e ↦ rw e (
            ap
              (λ (j : Key).
                some (fl.add (or_zero fl.zero (lookup j state.fused)) (contribution fl k rank)))
              (sym (==→eq key (identity hit) e)))
        | inr e ↦ rw e refl
      ]

  add_hit-IsFused :
      (rank : ℕ) (hit : SearchHit F) (state : Fused fl k)
      → IsFused state
      → IsFused (add_hit fl k rank hit state)
  unfolding add_hit
  add_hit-IsFused rank hit state h = record {
    once = insert-NodupKeys (identity hit) _ state.fused h.once;
    both = λ key e.
        let q = lookup-set_default key (identity hit) hit state.representative in
        let p =
          lookup-insert key (identity hit)
            (fl.add (or_zero fl.zero (lookup (identity hit) state.fused)) (contribution fl k rank))
            state.fused in
        elim (Bool-cases (key == identity hit)) [
          | inl same ↦ rw q (rw same refl)
          | inr other ↦ rw q (rw other (h.both key (rw (p, other) at e)))
        ];
    own = λ key found e.
        let q = lookup-set_default key (identity hit) hit state.representative in
        elim (Bool-cases (key == identity hit)) [
          | inl same ↦
              ap (λ (x : SearchHit F). identity x) (sym (some-injective _ _ (rw (q, same) at e)))
              ∙ own_default hit (lookup (identity hit) state.representative) (h.own (identity hit))
              ∙ sym (==→eq key (identity hit) same)
          | inr other ↦ h.own key found (rw (q, other) at e)
        ];
  }

  add_ranking-tally :
      (key : Key) (rank : ℕ) (hits : List (SearchHit F)) (state : Fused fl k)
      → lookup key (add_ranking fl k rank hits state).fused
        ≡ tally_ranking key rank hits (lookup key state.fused)
  unfolding add_ranking
  add_ranking-tally key rank [] state = refl
  add_ranking-tally key rank (hit ∷ hits) state =
      add_ranking-tally key (suc rank) hits (add_hit fl k rank hit state)
      ∙ ap (tally_ranking key (suc rank) hits) (add_hit-tally key rank hit state)

  add_rankings-tally :
      (key : Key) (rankings : List (List (SearchHit F))) (state : Fused fl k)
      → lookup key (add_rankings fl k rankings state).fused
        ≡ tally key rankings (lookup key state.fused)
  unfolding add_rankings
  add_rankings-tally key [] state = refl
  add_rankings-tally key (ranking ∷ rest) state =
      add_rankings-tally key rest (add_ranking fl k 1 ranking state)
      ∙ ap (tally key rest) (add_ranking-tally key 1 ranking state)

  add_ranking-IsFused :
      (rank : ℕ) (hits : List (SearchHit F)) (state : Fused fl k)
      → IsFused state
      → IsFused (add_ranking fl k rank hits state)
  unfolding add_ranking
  add_ranking-IsFused rank [] state h = h
  add_ranking-IsFused rank (hit ∷ hits) state h =
      add_ranking-IsFused (suc rank) hits _ (add_hit-IsFused rank hit state h)

  add_rankings-IsFused :
      (rankings : List (List (SearchHit F))) (state : Fused fl k)
      → IsFused state
      → IsFused (add_rankings fl k rankings state)
  unfolding add_rankings
  add_rankings-IsFused [] state h = h
  add_rankings-IsFused (ranking ∷ rest) state h =
      add_rankings-IsFused rest _ (add_ranking-IsFused 1 ranking state h)

  pub fuse-IsFused : (rankings : List (List (SearchHit F))) → IsFused (fuse fl k rankings)
  unfolding fuse lookup
  fuse-IsFused rankings =
      add_rankings-IsFused rankings _
        (record { once = tt; both = λ key e. e; own = λ key hit e. absurd (none-ne-some hit e) })

  -- The hits stand for the entries of the fused scores, one for each, in their order.
  abbrev pub Stands : List (Key × F) → List (SearchHit F) → Type 0
  Stands [] [] = Unit
  Stands ((key, score) ∷ items) (hit ∷ hits) =
      (identity hit ≡ key) × (hit.score ≡ score) × Stands items hits
  Stands _ _ = ⊥

  copies-Stands :
      (representative : Dict Key (SearchHit F)) (items : List (Key × F))
      → ((key : Key) (hit : SearchHit F)
          → lookup key representative ≡ some hit
          → identity hit ≡ key)
      → All (λ (t : Key × F). is_some (lookup t.0 representative) ≡ true) items
      → (hits : List (SearchHit F)) × (copies fl k representative items ≡ some hits)
        × Stands items hits
  unfolding copies
  copies-Stands representative [] own all = ([], refl, tt)
  copies-Stands representative ((key, score) ∷ items) own all =
      let (hits, e, h) = copies-Stands representative items own all.1 in
      elim (Option-cases (lookup key representative)) [
        | inl absent ↦ absurd (false≢true (rw absent at all.0))
        | inr (hit, found) ↦ (
          record hit { score = score } ∷ hits,
          ap₂ (add_copy fl k score) found e,
          (own key hit found, refl, h),
        )
      ]

  pub entries_found :
      (items : List (Key × F)) → All (λ (t : Key × F). is_some (lookup t.0 items) ≡ true) items
  unfolding lookup
  entries_found [] = tt
  entries_found ((key, score) ∷ items) = (
    rw (==_refl key) refl,
    All-imp items
        (λ t h.
          if_cases (λ (o : Option F). is_some o ≡ true) (t.0 == key) (some score) (lookup t.0 items)
            (λ _. refl) (λ _. h))
        (entries_found items),
  )

  -- Fusing does not raise. Its hits stand for entries of a key and a score each, sorted by the score,
  -- the larger first, with each key once, and the entries hold for each key the sum of what it
  -- contributes at its ranks in the rankings, and no other key. Comparison of scores is a strict weak
  -- order.
  pub reciprocal_rank_fusion_lem :
      IsStrictWeak fl.lt
      → (rankings : List (List (SearchHit F)))
      → (items : List (Key × F)) × (hits : List (SearchHit F)) × (reciprocal_rank_fusion fl k
            rankings
          ≡ some hits)
        × Stands items hits
        × IsSortedDesc fl.lt (λ (t : Key × F). t.1) items
        × NodupKeys items
        × ((key : Key) → lookup key items ≡ tally key rankings none)
  unfolding reciprocal_rank_fusion
  reciprocal_rank_fusion_lem order rankings =
      let state = fuse fl k rankings in
      let h = fuse-IsFused rankings in
      let items = sort_desc fl.lt (λ (t : Key × F). t.1) state.fused in
      let same : (key : Key) → lookup key items ≡ lookup key state.fused =
        λ key. lookup-sort_desc fl.lt key state.fused h.once in
      let (hits, e, stands) = copies-Stands state.representative items h.own (
        All-imp items (λ t found. h.both t.0 (ap is_some (sym (same t.0)) ∙ found))
          (entries_found items)) in
      (
        items,
        hits,
        e,
        stands,
        sort_desc-IsSortedDesc fl.lt (λ (t : Key × F). t.1) order state.fused,
        sort_desc-NodupKeys fl.lt state.fused h.once,
        λ key.
            same key
            ∙ (unfold fuse lookup in
                add_rankings-tally key rankings (record { fused = []; representative = [] })),
      )
