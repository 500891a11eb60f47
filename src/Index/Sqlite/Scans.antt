-- ===== src/Index/Sqlite/Scans.antt =====
-- The searches over the table are those of the in-memory index.
use alvis.Base.{String, ℕ, ◌≡◌, refl, ap, ◌∙◌, Bool, true, false, Option, List, [], ◌∷◌, map}
use alvis.Base.{if◌then◌else◌, take, All, map-take-map, map-map}
use alvis.Base.Dict.{Dict, values}
use alvis.Base.Sort.{sort_desc, sort_desc-map}
use alvis.Value.{Value}
use alvis.Errors.{Result, ok, err}
use alvis.Floats.{Floats}
use alvis.Text.{Text}
use alvis.Index.Math.{cosine_similarity, clamp}
use alvis.Index.Keyword.{tokenize, bm25_scores, zip_strict}
use alvis.Index.Memory.{
  Point, MemoryIndex, candidates, similarities, with_similarity, best, ranked_hits, to_hit,
}
use alvis.Index.Memory
use alvis.Index.Memory.Search.{with_similarity-eq-ok}
use alvis.Index.Sqlite.{
  Json, Row, Found, hit_of, passes, add_scored, scan, first_hits, search, kept, ranked,
  keyword_search,
}
use alvis.Index.Sqlite.Table.{point_of, entries, index_of}

-- The clamp leaves the similarity to the vector alone.
abbrev pub IsInRange : {F : Type 0} → Floats F → List F → Point F → Type 0
IsInRange {F} fl vector p = (s : F) → cosine_similarity fl vector p.vector ≡ ok s → clamp fl s ≡ s

abbrev carried : {A B : Type 0} → (A → B) → Result (List A) → Result (List B)
carried f (ok xs) = ok (map f xs)
carried f (err e) = err e

module _ {J F : Type 0} (json : Json J F) (repr : Value → String) (fl : Floats F) where
  found_of : Point F → Found
  found_of p = (p.chunk.text, p.chunk.source_uri, p.chunk.metadata)

  scored_of : Point F × F → F × Found
  unfolding found_of
  scored_of (p, s) = (clamp fl s, found_of p)

  module _ (vector : List F) (filters : Option (Dict String String))
      (principals : Option (List String)) where
    add_scored-carried :
        (r : Result F) (p : Point F) (rest : Result (List (Point F × F)))
        → add_scored json repr fl r (found_of p) (carried scored_of rest)
          ≡ carried scored_of (with_similarity repr fl r p rest)
    unfolding add_scored with_similarity scored_of found_of
    add_scored-carried (err e) p rest = refl
    add_scored-carried (ok s) p (err e) = refl
    add_scored-carried (ok s) p (ok rest) = refl

    scan_step :
        (b : Bool) (p : Point F) (points : List (Point F)) (rest : Result (List (F × Found)))
        → rest ≡ carried scored_of (similarities repr fl vector points)
        → (if b
            then add_scored json repr fl (cosine_similarity fl vector p.vector) (found_of p) rest
            else rest)
          ≡ carried scored_of (similarities repr fl vector (if b then p ∷ points else points))
    unfolding similarities
    scan_step true p points rest h =
        ap (add_scored json repr fl (cosine_similarity fl vector p.vector) (found_of p)) h
        ∙ add_scored-carried (cosine_similarity fl vector p.vector) p
            (similarities repr fl vector points)
    scan_step false p points rest h = h

    scan-carried :
        (rows : List (Row J))
        → scan json repr fl vector filters principals rows
          ≡ carried scored_of (
              similarities repr fl vector
                (candidates repr fl filters principals (values (entries json rows))))
    unfolding scan passes candidates found_of similarities
    scan-carried [] = refl
    scan-carried (r ∷ rows) =
        scan_step (passes json repr fl filters principals r) (point_of json r)
          (candidates repr fl filters principals (values (entries json rows)))
          (scan json repr fl vector filters principals rows) (scan-carried rows)

    kept-map :
        (rows : List (Row J))
        → kept json repr fl filters principals rows
          ≡ map found_of (candidates repr fl filters principals (values (entries json rows)))
    unfolding kept passes candidates found_of
    kept-map [] = refl
    kept-map (r ∷ rows) =
        kept_step (passes json repr fl filters principals r) (point_of json r)
          (candidates repr fl filters principals (values (entries json rows)))
          (kept json repr fl filters principals rows) (kept-map rows)
      where
        kept_step :
            (b : Bool) (p : Point F) (points : List (Point F)) (rest : List Found)
            → rest ≡ map found_of points
            → (if b then found_of p ∷ rest else rest)
              ≡ map found_of (if b then p ∷ points else points)
        kept_step true p points rest h = ap (λ r. found_of p ∷ r) h
        kept_step false p points rest h = h

    similarities-All :
        (points : List (Point F)) (scored : List (Point F × F))
        → similarities repr fl vector points ≡ ok scored
        → All (IsInRange fl vector) points
        → All (λ t. clamp fl t.1 ≡ t.1) scored
    unfolding similarities
    similarities-All [] [] e h = tt
    similarities-All [] (t ∷ scored) e h = cc
    similarities-All (p ∷ points) scored e (here, h) =
        let (s, more, scored_now, later, now) =
          with_similarity-eq-ok repr fl vector (cosine_similarity fl vector p.vector) p
            (similarities repr fl vector points) scored e in
        rw now (here s scored_now, similarities-All points more later h)

    first_hits-carried :
        (top_k : ℕ) (points : List (Point F)) (r : Result (List (Point F × F)))
        → similarities repr fl vector points ≡ r
        → All (IsInRange fl vector) points
        → first_hits json repr fl top_k (carried scored_of r) ≡ best repr fl top_k r
    unfolding first_hits best to_hit scored_of found_of
    first_hits-carried top_k points (err e) run h = refl
    first_hits-carried top_k points (ok scored) run h = ap ok (
        ap (λ xs. map (λ (s, found). hit_of s found) (take top_k xs))
          (sort_desc-map fl.lt (λ t. t.1) (λ t. t.0) scored_of scored
            (similarities-All points scored run h))
        ∙ map-take-map (λ (s, found). hit_of s found) scored_of top_k
            (sort_desc fl.lt (λ t. t.1) scored))

  pub search_refines :
      (vector : List F) (top_k : ℕ) (filters : Option (Dict String String))
      → (principals : Option (List String)) (rows : List (Row J))
      → All
          (IsInRange fl vector)
          (candidates repr fl filters principals (values (entries json rows)))
      → search json repr fl vector top_k filters principals rows
        ≡ Memory.search repr fl vector top_k filters principals (index_of json rows)
  unfolding search Memory.search
  search_refines vector top_k filters principals rows h =
      let points = candidates repr fl filters principals (values (entries json rows)) in
      ap (first_hits json repr fl top_k) (scan-carried vector filters principals rows)
      ∙ first_hits-carried vector filters principals top_k points
          (similarities repr fl vector points) refl h

  module _ (log : F → F) (lower : Text → Text) where
    with_found : Point F × F → Found × F
    unfolding found_of
    with_found (p, s) = (found_of p, s)

    zip_strict-map :
        (points : List (Point F)) (scores : List F)
        → zip_strict (map found_of points) scores ≡ carried with_found (zip_strict points scores)
    unfolding zip_strict with_found
    zip_strict-map [] [] = refl
    zip_strict-map [] (s ∷ scores) = refl
    zip_strict-map (p ∷ points) [] = refl
    zip_strict-map (p ∷ points) (s ∷ scores) =
        rw (zip_strict-map points scores) (added (zip_strict points scores))
      where
        added :
            (r : Result (List (Point F × F)))
            → (elim (carried with_found r) as (λ _. Result (List (Found × F))) [
              | ok rest ↦ ok ((found_of p, s) ∷ rest)
              | err e ↦ err e
            ])
              ≡ carried with_found (elim r as (λ _. Result (List (Point F × F))) [
                | ok rest ↦ ok ((p, s) ∷ rest)
                | err e ↦ err e
              ])
        added (ok rest) = refl
        added (err e) = refl

    ranked-carried :
        (top_k : ℕ) (r : Result (List (Point F × F)))
        → ranked json repr fl top_k (carried with_found r) ≡ ranked_hits repr fl top_k r
    unfolding ranked ranked_hits with_found found_of to_hit
    ranked-carried top_k (err e) = refl
    ranked-carried top_k (ok scored) = ap ok (
        ap (λ xs. map (λ (found, s). hit_of s found) (take top_k xs))
          (sort_desc-map fl.lt (λ t. t.1) (λ t. t.1) with_found scored (All-refl scored))
        ∙ map-take-map (λ (found, s). hit_of s found) with_found top_k
            (sort_desc fl.lt (λ t. t.1) scored))
      where
        All-refl : (xs : List (Point F × F)) → All (λ t. (with_found t).1 ≡ t.1) xs
        All-refl [] = tt
        All-refl (x ∷ xs) = (refl, All-refl xs)

    pub keyword_search_refines :
        (query : String) (top_k : ℕ) (filters : Option (Dict String String))
        → (principals : Option (List String)) (rows : List (Row J))
        → keyword_search json repr fl log lower query top_k filters principals rows
          ≡ Memory.keyword_search repr fl log lower query top_k filters principals
              (index_of json rows)
    unfolding keyword_search Memory.keyword_search found_of
    keyword_search_refines query top_k filters principals rows =
        let points = candidates repr fl filters principals (values (entries json rows)) in
        let scores = λ (ts : List (List String)). bm25_scores fl log (tokenize lower query) ts in
        ap
          (λ (found : List Found).
            ranked json repr fl top_k
              (zip_strict found (scores (map (λ t. tokenize lower t.0) found))))
          (kept-map [] filters principals rows)
        ∙ ap (λ ts. ranked json repr fl top_k (zip_strict (map found_of points) (scores ts)))
            (map-map (λ t. tokenize lower t.0) found_of points)
        ∙ ap (ranked json repr fl top_k)
            (zip_strict-map points (scores (map (λ p. tokenize lower p.chunk.text) points)))
        ∙ ranked-carried top_k
            (zip_strict points (scores (map (λ p. tokenize lower p.chunk.text) points)))
