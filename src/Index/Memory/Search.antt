-- ===== src/Index/Memory/Search.antt =====
-- What a search of the in-memory index returns.
use alvis.Base.{
  String, ℕ, min, ◌≡◌, refl, ap, sym, ◌∙◌, Bool, true, false, ◌&&◌, Option, List, [], ◌∷◌, ◌++◌,
  map, arith,
}
use mathlib.Core.List.{Perm}
use mathlib.Core.List.Perm
use alvis.Base.{
  filterb, take, drop, take-append-drop, length, length-map, length-take, All, All-filterb,
  All-take, All-map, All-imp, All-of_map, filterb-filterb, All-filterb_of,
}
use alvis.Base.Dict.{Dict, values, filter_items}
use alvis.Base.Sort.{
  sort_desc, All-sort_desc, IsStrictWeak, IsSortedDesc, sort_desc-IsSortedDesc, length-sort_desc,
  IsSortedDesc-map, IsSortedDesc-take, IsSortedDesc-drop, sort_desc-perm,
}
use alvis.Value.{Value}
use alvis.Models.{SearchHit, Metadata}
use alvis.Errors.{Result, ok, err}
use alvis.Floats.{Floats}
use alvis.Index.Acl.{acl_visible}
use alvis.Index.Filters.{matches}
use alvis.Index.Math.{cosine_similarity, cosine_similarity_total, RootsMultiply, clamp, clamp_mono}
use alvis.Index.Memory.{
  Point, MemoryIndex, candidates, similarities, with_similarity, best, search, to_hit,
}

module _ {F : Type 0} (repr : Value → String) (fl : Floats F) (vector : List F) where
  pub with_similarity-eq-ok :
      (r : Result F) (p : Point F) (rest : Result (List (Point F × F)))
      (scored : List (Point F × F))
      → with_similarity repr fl r p rest ≡ ok scored
      → (s : F) × (more : List (Point F × F)) × (r ≡ ok s)
        × (rest ≡ ok more)
        × (scored ≡ (p, s) ∷ more)
  unfolding with_similarity
  with_similarity-eq-ok (err e) p rest scored h = cc
  with_similarity-eq-ok (ok s) p (err e) scored h = cc
  with_similarity-eq-ok (ok s) p (ok more) scored h = (s, more, refl, refl, cc)

  -- Scoring keeps the points, in their order, whatever the scores.
  map-similarities :
      (points : List (Point F)) (scored : List (Point F × F))
      → similarities repr fl vector points ≡ ok scored
      → map (λ t. t.0) scored ≡ points
  unfolding similarities
  map-similarities [] scored e = ground arith
  map-similarities (p ∷ points) scored e =
      let (s, more, scored_now, later, now) =
        with_similarity-eq-ok (cosine_similarity fl vector p.vector) p
          (similarities repr fl vector points) scored e in
      rw now (ap (λ ps. p ∷ ps) (map-similarities points more later))

  similarities_total :
      RootsMultiply fl
      → (points : List (Point F)) → All (λ p. length p.vector ≡ length vector) points
      → (scored : List (Point F × F)) × (similarities repr fl vector points ≡ ok scored)
  unfolding similarities
  similarities_total roots [] h = ([], refl)
  similarities_total roots (p ∷ points) h =
      let (s, e) = cosine_similarity_total fl roots vector p.vector (sym h.0) in
      let (scored, e') = similarities_total roots points h.1 in ((p, s) ∷ scored, rw (e, e'))

  -- The metadata passes the filters and its list of principals admits the identity.
  abbrev pub Allowed : Option (Dict String String) → Option (List String) → Metadata → Type 0
  Allowed filters principals metadata =
      (matches repr metadata filters ≡ true) × (acl_visible repr metadata principals ≡ true)

  candidates-Allowed :
      (filters : Option (Dict String String)) (principals : Option (List String))
      → (points : List (Point F))
      → All
          (λ p. Allowed filters principals p.chunk.metadata)
          (candidates repr fl filters principals points)
  unfolding candidates
  candidates-Allowed filters principals points =
      All-imp (candidates repr fl filters principals points) (λ p h. ground arith)
        (All-filterb
          (λ p.
            matches repr p.chunk.metadata filters && acl_visible repr p.chunk.metadata principals)
          points)

  -- Each score is the similarity of the query's vector to the point's.
  similarities-All :
      (points : List (Point F)) (scored : List (Point F × F))
      → similarities repr fl vector points ≡ ok scored
      → All (λ t. cosine_similarity fl vector t.0.vector ≡ ok t.1) scored
  unfolding similarities
  similarities-All [] scored e = rw (← nothing_scored e) tt
    where
      nothing_scored : ok [] ≡ ok scored → [] ≡ scored
      nothing_scored h = cc
  similarities-All (p ∷ points) scored e =
      let (s, more, scored_now, later, now) =
        with_similarity-eq-ok (cosine_similarity fl vector p.vector) p
          (similarities repr fl vector points) scored e in
      rw now (scored_now, similarities-All points more later)

  -- The hit of a point, with its similarity clamped.
  abbrev pub hit_of : Point F × F → SearchHit F
  hit_of (p, s) = record {
    text = p.chunk.text;
    source_uri = p.chunk.source_uri;
    metadata = p.chunk.metadata;
    score = clamp fl s;
  }

  -- The hits are those of the points chosen, each with its own similarity; the chosen and the others are
  -- all the points; none of the others is more similar than a chosen one; no later hit scores higher.
  abbrev pub IsBest : ℕ → List (Point F) → List (SearchHit F) → Type 0
  IsBest top_k points hits =
      (chosen : List (Point F × F)) × (others : List (Point F × F)) × (hits ≡ map hit_of chosen)
      × Perm (map (λ t. t.0) (chosen ++ others)) points
      × All (λ t. cosine_similarity fl vector t.0.vector ≡ ok t.1) (chosen ++ others)
      × All (λ t. All (λ u. fl.lt t.1 u.1 ≡ false) others) chosen
      × IsSortedDesc fl.lt (λ t. t.1) chosen
      × (length hits ≡ min top_k (length points))
      × IsSortedDesc fl.lt (λ h. h.score) hits

  module _ (order : IsStrictWeak fl.lt) (top_k : ℕ) (P : Metadata → Type 0) where
    sorted : List (Point F × F) → List (Point F × F)
    sorted scored = sort_desc fl.lt (λ t. t.1) scored

    chosen-IsBest :
        (points : List (Point F)) (scored : List (Point F × F))
        → map (λ t. t.0) scored ≡ points
        → All (λ t. cosine_similarity fl vector t.0.vector ≡ ok t.1) scored
        → IsBest top_k points (map hit_of (take top_k (sorted scored)))
    unfolding sorted
    chosen-IsBest points scored same own =
        let xs = sorted scored in
        let all : take top_k xs ++ drop top_k xs ≡ xs = take-append-drop top_k xs in
        let size : length scored ≡ length points =
          sym (length-map (λ t. t.0) scored) ∙ ap length same in
        let desc = sort_desc-IsSortedDesc fl.lt (λ t. t.1) order scored in
        let kept = IsSortedDesc-take fl.lt (λ t. t.1) top_k xs desc in
        (
          take top_k xs,
          drop top_k xs,
          refl,
          rw (all, ← same) (Perm.map (λ t. t.0) (sort_desc-perm fl.lt (λ t. t.1) scored)),
          rw all (All-sort_desc fl.lt (λ t. t.1) _ scored own),
          IsSortedDesc-drop fl.lt (λ t. t.1) top_k xs desc,
          kept,
          omega (
            arith,
            length-map hit_of (take top_k xs),
            length-take top_k xs,
            length-sort_desc fl.lt (λ t. t.1) scored,
            size,
          ),
          IsSortedDesc-map fl.lt (λ t. t.1) (λ h. h.score) hit_of
              (λ x y le. clamp_mono fl order x.1 y.1 le) (take top_k xs) kept,
        )

    chosen-All :
        (scored : List (Point F × F))
        → All (λ p. P p.chunk.metadata) (map (λ t. t.0) scored)
        → All (λ h. P h.metadata) (map hit_of (take top_k (sorted scored)))
    unfolding sorted
    chosen-All scored h = All-map _ hit_of (take top_k (sorted scored)) (
        All-take _ top_k (sorted scored) (
          All-sort_desc fl.lt (λ t. t.1) _ scored
            (All-of_map (λ (p : Point F). P p.chunk.metadata) (λ t. t.0) scored h)))

    best-IsBest :
        (points : List (Point F)) (r : Result (List (Point F × F))) (hits : List (SearchHit F))
        → similarities repr fl vector points ≡ r
        → All (λ p. P p.chunk.metadata) points
        → best repr fl top_k r ≡ ok hits
        → All (λ h. P h.metadata) hits × IsBest top_k points hits
    unfolding best to_hit sorted
    best-IsBest points (err e) hits run h found = cc
    best-IsBest points (ok scored) hits run h found =
        let same : map (λ t. t.0) scored ≡ points = map-similarities points scored run in
        let these : map hit_of (take top_k (sorted scored)) ≡ hits = cc found in
        rw (← these) (
          chosen-All scored (rw same h),
          chosen-IsBest points scored same (similarities-All points scored run),
        )

module _ {F : Type 0} (repr : Value → String) (fl : Floats F) (order : IsStrictWeak fl.lt)
    (vector : List F) (top_k : ℕ) (filters : Option (Dict String String))
    (principals : Option (List String)) (index : MemoryIndex F) where
  -- The hits of a search are the texts, uris and metadata of the best points among those that pass the
  -- filters and are visible to the principals, with their clamped cosine similarities: as many as
  -- `top_k` and these points allow, in falling order, and no point that is left out is more similar to
  -- the query than one that is not. Comparison of floats is assumed to be a strict weak order.
  pub search-IsBest :
      (hits : List (SearchHit F))
      → search repr fl vector top_k filters principals index ≡ ok hits
      → All
          (λ h.
            (matches repr h.metadata filters ≡ true)
            × (acl_visible repr h.metadata principals ≡ true))
          hits
        × IsBest repr fl vector top_k
            (filterb
              (λ p.
                matches repr p.chunk.metadata filters
                && acl_visible repr p.chunk.metadata principals)
              (values index.points))
            hits
  unfolding search candidates
  search-IsBest hits found =
      let points = candidates repr fl filters principals (values index.points) in
      best-IsBest repr fl vector order top_k (Allowed repr fl vector filters principals) points
        (similarities repr fl vector points) hits refl
        (candidates-Allowed repr fl vector filters principals (values index.points)) found

values-filter_items :
    {A : Type 0} (keep : A → Bool) (d : Dict String A)
    → values (filter_items (λ k v. keep v) d) ≡ filterb keep (values d)
unfolding filter_items
values-filter_items keep [] = refl
values-filter_items keep ((k, v) ∷ d) = ground (arith, values-filter_items keep d)

module _ {F : Type 0} (repr : Value → String) (fl : Floats F) (vector : List F) (top_k : ℕ)
    (filters : Option (Dict String String)) (principals : Option (List String)) where
  -- Points that the principals may not see have no influence on a search: the index without them
  -- gives the same hits, or the same error.
  pub search_hidden :
      (index : MemoryIndex F)
      → search repr fl vector top_k filters principals (record {
        points = filter_items (λ pid p. acl_visible repr p.chunk.metadata principals) index.points;
      })
        ≡ search repr fl vector top_k filters principals index
  unfolding search candidates
  search_hidden index =
      ap (λ ps. best repr fl top_k (similarities repr fl vector ps))
        (rw (values-filter_items (λ p. acl_visible repr p.chunk.metadata principals) index.points) (
          filterb-filterb (λ p. matches repr p.chunk.metadata filters)
            (λ p. acl_visible repr p.chunk.metadata principals) (values index.points)))

  -- A search of an index whose vectors all have the length of the query's vector gives hits: neither the
  -- pairing of the vectors' numbers nor the division by their norms raises. Square roots of floats that
  -- are not zero are assumed to have a product that is not zero.
  pub search_total :
      RootsMultiply fl
      → (index : MemoryIndex F) → All (λ p. length p.vector ≡ length vector) (values index.points)
      → (hits : List (SearchHit F)) × (search repr fl vector top_k filters principals index
          ≡ ok hits)
  unfolding search candidates best
  search_total roots index same =
      let (scored, e) =
        similarities_total repr fl vector roots
          (candidates repr fl filters principals (values index.points))
          (All-filterb_of _ _ (values index.points) same) in
      (_, ap (best repr fl top_k) e)
