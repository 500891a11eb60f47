-- ===== src/Rerank/Order.antt =====
-- Reranking loses and repeats no hit, whatever the model answers.
use alvis.Base.{
  ℕ, zero, suc, ◌+◌, ◌≤◌, ◌<◌, ◌≡◌, refl, ap, sym, ◌∙◌, true, Option, none, some, List, [], ◌∷◌,
  arith,
}
use alvis.Base.{ltb, if_cases, All, All-take, length, length-take, take}
use mathlib.Core.List.{Perm, filter_map}
use mathlib.Core.List.Perm
use mathlib.Core.Option.{some-injective}
use mathlib.Core.Path.{subst}
use alvis.Base.Sort.{sort_desc-perm, All-of_sort_desc}
use alvis.Models.{SearchHit}
use alvis.Errors.{Result, ok, err}
use alvis.Text.{Text}
use alvis.Text.Slices.{item_at}
use alvis.Answer.Citations.{item_at-some}
use alvis.Rerank.{
  find_array, parse_numbers, to_indices, same_numbers, range_from, sorted, checked, indices_of,
  order_of, parse_order, add_hit, hits_at, first_of, reordered, order_in, rerank,
}

same_numbers-eq : (ms ns : List ℕ) → same_numbers ms ns ≡ true → ms ≡ ns
same_numbers-eq [] [] h = refl
same_numbers-eq [] (n ∷ ns) h = cc
same_numbers-eq (m ∷ ms) [] h = cc
same_numbers-eq (m ∷ ms) (n ∷ ns) h = ground (arith, h, same_numbers-eq ms ns)

-- A list of indices that holds each below the count once.
abbrev pub IsOrder : ℕ → List ℕ → Type 0
IsOrder count order = Perm order (range_from 0 count) × All (λ i. i < count) order

range_from-< :
    (first count limit : ℕ) → first + count ≤ limit → All (λ i. i < limit) (range_from first count)
range_from-< first zero limit h = tt
range_from-< first (suc count) limit h =
    (omega (arith, h), range_from-< (suc first) count limit (omega (arith, h)))

-- What is done with an order that is accepted, and one that is not.
abbrev Ordered : ℕ → Result (List ℕ) → Type 0
Ordered count (ok order) = IsOrder count order
Ordered count (err e) = Unit {0}

checked-IsOrder : (count : ℕ) (o : Option (List ℕ)) → Ordered count (checked count o)
unfolding checked
checked-IsOrder count none = tt
checked-IsOrder count (some order) =
    if_cases (Ordered count) (same_numbers (sorted order) (range_from 0 count)) (ok order) _
      (λ e.
        let same : sorted order ≡ range_from 0 count = same_numbers-eq _ _ e in
        (
          subst (λ ns. Perm order ns) same
              (Perm.symm (sort_desc-perm (λ m n. ltb n m) (λ n. n) order)),
          All-of_sort_desc (λ m n. ltb n m) (λ n. n) (λ i. i < count) order
              (subst (All (λ i. i < count)) (sym same) (range_from-< 0 count count (omega arith))),
        ))
      (λ _. tt)

parse_order-Ordered : (content : Text) (count : ℕ) → Ordered count (parse_order content count)
unfolding parse_order
parse_order-Ordered content count = order_of-Ordered (find_array content)
  where
    indices_of-Ordered : (o : Option (List ℕ)) → Ordered count (indices_of count o)
    indices_of-Ordered none = tt
    indices_of-Ordered (some ns) = checked-IsOrder count (to_indices ns)

    order_of-Ordered : (o : Option Text) → Ordered count (order_of count o)
    order_of-Ordered none = tt
    order_of-Ordered (some s) = indices_of-Ordered (parse_numbers s)

module _ {A : Type 0} where
  filter_map-range_from :
      (f : ℕ → Option A) (first : ℕ) (xs : List A)
      → ((i : ℕ) → f (first + i) ≡ item_at i xs)
      → filter_map f (range_from first (length xs)) ≡ xs
  unfolding filter_map
  filter_map-range_from f first [] h = refl
  filter_map-range_from f first (x ∷ xs) h = rw (ap f (first_sum first) ∙ h 0) (
      ap (λ ys. x ∷ ys)
        (filter_map-range_from f (suc first) xs (λ i. ap f (next_sum first i) ∙ h (suc i))))
    where
      first_sum : (n : ℕ) → n ≡ n + 0
      first_sum n = omega arith

      next_sum : (n i : ℕ) → suc n + i ≡ n + suc i
      next_sum n i = omega arith

module _ {F : Type 0} (hits : List (SearchHit F)) where
  hits_at-filter_map :
      (order : List ℕ)
      → All (λ i. i < length hits) order
      → hits_at hits order ≡ ok (filter_map (λ i. item_at i hits) order)
  unfolding hits_at add_hit filter_map
  hits_at-filter_map [] h = refl
  hits_at-filter_map (i ∷ order) h =
      let (hit, e) = item_at-some i hits h.0 in rw (e, hits_at-filter_map order h.1) refl

  -- The result is the beginning of a rearrangement of the hits.
  abbrev Rearranged : ℕ → Result (List (SearchHit F)) → Type 0
  Rearranged top_k r = (ys : List (SearchHit F)) × Perm ys hits × (r ≡ ok (take top_k ys))

  reordered-Rearranged :
      (top_k : ℕ) (r : Result (List ℕ))
      → Ordered (length hits) r
      → Rearranged top_k (reordered top_k hits r)
  unfolding reordered first_of
  reordered-Rearranged top_k (err e) h = (hits, Perm.refl hits, refl)
  reordered-Rearranged top_k (ok order) (perm, below) = (
    filter_map (λ i. item_at i hits) order,
    subst (λ ys. Perm (filter_map (λ i. item_at i hits) order) ys)
        (filter_map-range_from (λ i. item_at i hits) 0 hits
          (λ i. ap (λ j. item_at j hits) (omega arith)))
        (Perm.filter_map (λ i. item_at i hits) perm),
    ap (first_of top_k) (hits_at-filter_map order below),
  )

order_in-Ordered : (count : ℕ) (response : Result Text) → Ordered count (order_in count response)
unfolding order_in
order_in-Ordered count (err e) = tt
order_in-Ordered count (ok content) = parse_order-Ordered content count

-- Whatever the endpoint answers, an error included, reranking does not raise, and gives the first
-- `top_k` of a rearrangement of all the hits.
pub rerank_lem :
    {F : Type 0} (response : Result Text) (hits : List (SearchHit F)) (top_k : ℕ)
    → (ys : List (SearchHit F)) × Perm ys hits × (rerank response hits top_k ≡ ok (take top_k ys))
unfolding rerank
rerank_lem {F} response [] top_k = ([], Perm.refl [], ap ok (none_taken top_k))
  where
    none_taken : (n : ℕ) → ◌≡◌ {A = List (SearchHit F)} [] (take n [])
    none_taken zero = refl
    none_taken (suc n) = refl
rerank_lem response (hit ∷ hits) top_k =
    reordered-Rearranged (hit ∷ hits) top_k (order_in (length (hit ∷ hits)) response)
      (order_in-Ordered (length (hit ∷ hits)) response)

module _ {F : Type 0} (P : SearchHit F → Type 0) where
  item_at-All :
      (i : ℕ) (hits : List (SearchHit F)) (hit : SearchHit F)
      → All P hits
      → item_at i hits ≡ some hit
      → P hit
  item_at-All i [] hit ps e = cc
  item_at-All zero (x ∷ hits) hit ps e = subst P (some-injective x hit e) ps.0
  item_at-All (suc i) (x ∷ hits) hit ps e = item_at-All i hits hit ps.1 e

  filter_map-All :
      (hits : List (SearchHit F)) (order : List ℕ)
      → All P hits
      → All (λ i. i < length hits) order
      → All P (filter_map (λ i. item_at i hits) order)
  unfolding filter_map
  filter_map-All hits [] ps h = tt
  filter_map-All hits (i ∷ order) ps h =
      let (hit, e) = item_at-some i hits h.0 in
      rw e (item_at-All i hits hit ps e, filter_map-All hits order ps h.1)

  -- At most so many hits, each with the property.
  abbrev pub Few : ℕ → Result (List (SearchHit F)) → Type 0
  Few top_k r = (ys : List (SearchHit F)) × (r ≡ ok ys) × All P ys × (length ys ≤ top_k)

  pub take-Few :
      (top_k : ℕ) (hits : List (SearchHit F)) → All P hits → Few top_k (ok (take top_k hits))
  take-Few top_k hits ps =
      (take top_k hits, refl, All-take P top_k hits ps, omega (arith, length-take top_k hits))

  reordered-Few :
      (top_k : ℕ) (hits : List (SearchHit F)) (r : Result (List ℕ))
      → All P hits
      → Ordered (length hits) r
      → Few top_k (reordered top_k hits r)
  unfolding reordered first_of
  reordered-Few top_k hits (err e) ps h = take-Few top_k hits ps
  reordered-Few top_k hits (ok order) ps (perm, below) =
      subst (λ r. Few top_k r) (sym (ap (first_of top_k) (hits_at-filter_map hits order below)))
        (take-Few top_k (filter_map (λ i. item_at i hits) order)
          (filter_map-All hits order ps below))

  -- What all hits have, the reranked ones have.
  pub rerank-Few :
      (response : Result Text) (hits : List (SearchHit F)) (top_k : ℕ)
      → All P hits
      → Few top_k (rerank response hits top_k)
  unfolding rerank
  rerank-Few response [] top_k ps = ([], refl, tt, omega arith)
  rerank-Few response (hit ∷ hits) top_k ps =
      reordered-Few top_k (hit ∷ hits) (order_in (length (hit ∷ hits)) response) ps
        (order_in-Ordered (length (hit ∷ hits)) response)
