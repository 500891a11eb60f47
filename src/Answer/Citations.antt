-- ===== src/Answer/Citations.antt =====
-- What the citations of an answer are.
use alvis.Base.{
  ℕ, zero, suc, ◌-◌, ◌<◌, ◌≡◌, refl, ap, ◌∙◌, Bool, true, false, ◌&&◌, ◌||◌, some, List, [], ◌∷◌,
  arith,
}
use alvis.Base.{ltb, eqb, if_cases, All, All-imp, All-filterb, filterb, length}
use alvis.Models.{SearchHit}
use alvis.Errors.{Result, ok}
use alvis.Text.{Text}
use alvis.Text.Slices.{item_at}
use alvis.Answer.{
  Citation, markers, insert_index, sorted_set, in_range, cited_indices, citation, add_citation,
  citations_of, answer_with, build_answer,
}

-- Each number is less than the next.
abbrev pub IsAscending : List ℕ → Type 0
IsAscending [] = Unit
IsAscending (n ∷ ns) = All (λ m. n < m) ns × IsAscending ns

-- `n in ns`
abbrev pub has : ℕ → List ℕ → Bool
has n [] = false
has n (m ∷ ns) = eqb n m || has n ns

All-insert_index :
    (P : ℕ → Type 0) (n : ℕ) (ms : List ℕ) → P n → All P ms → All P (insert_index n ms)
unfolding insert_index
All-insert_index P n [] p h = (p, tt)
All-insert_index P n (m ∷ ms) p h =
    if_cases (All P) (ltb n m) (n ∷ m ∷ ms) _ (λ _. (p, h))
      (λ _.
        if_cases (All P) (eqb n m) (m ∷ ms) (m ∷ insert_index n ms) (λ _. h)
          (λ _. (h.0, All-insert_index P n ms p h.1)))

insert_index-IsAscending : (n : ℕ) (ms : List ℕ) → IsAscending ms → IsAscending (insert_index n ms)
unfolding insert_index
insert_index-IsAscending n [] h = (tt, tt)
insert_index-IsAscending n (m ∷ ms) h =
    if_cases IsAscending (ltb n m) (n ∷ m ∷ ms) _
      (λ e. ((ground (arith, e), All-imp ms (λ k l. ground (arith, e, l)) h.0), h))
      (λ e.
        if_cases IsAscending (eqb n m) (m ∷ ms) (m ∷ insert_index n ms) (λ _. h)
          (λ f. (
            All-insert_index (λ k. m < k) n ms (ground (arith, e, f)) h.0,
            insert_index-IsAscending n ms h.1,
          )))

sorted_set-IsAscending : (ns : List ℕ) → IsAscending (sorted_set ns)
unfolding sorted_set
sorted_set-IsAscending [] = tt
sorted_set-IsAscending (n ∷ ns) =
    insert_index-IsAscending n (sorted_set ns) (sorted_set-IsAscending ns)

All-sorted_set : (P : ℕ → Type 0) (ns : List ℕ) → All P ns → All P (sorted_set ns)
unfolding sorted_set
All-sorted_set P [] h = tt
All-sorted_set P (n ∷ ns) h = All-insert_index P n (sorted_set ns) h.0 (All-sorted_set P ns h.1)

has-insert_index : (k n : ℕ) (ms : List ℕ) → has k (insert_index n ms) ≡ (eqb k n || has k ms)
unfolding insert_index
has-insert_index k n [] = refl
has-insert_index k n (m ∷ ms) = ground (arith, has-insert_index k n ms)

has-sorted_set : (k : ℕ) (ns : List ℕ) → has k (sorted_set ns) ≡ has k ns
unfolding sorted_set
has-sorted_set k [] = refl
has-sorted_set k (n ∷ ns) =
    has-insert_index k n (sorted_set ns) ∙ ap (λ b. eqb k n || b) (has-sorted_set k ns)

has-filterb_range :
    (count k : ℕ) (ns : List ℕ)
    → has k (filterb (in_range count) ns) ≡ (in_range count k && has k ns)
has-filterb_range count k [] = ground arith
has-filterb_range count k (n ∷ ns) = ground (arith, has-filterb_range count k ns)

pub item_at-some :
    {A : Type 0} (i : ℕ) (xs : List A) → i < length xs → (x : A) × (item_at i xs ≡ some x)
item_at-some i [] h = absurd (omega (arith, h))
item_at-some zero (x ∷ xs) h = (x, refl)
item_at-some (suc i) (x ∷ xs) h = item_at-some i xs (omega (arith, h))

module _ {F : Type 0} (hits : List (SearchHit F)) where
  abbrev pub indices : List (Citation F) → List ℕ
  indices [] = []
  indices (c ∷ cs) = c.index ∷ indices cs

  -- The citation is that of the hit at its index.
  abbrev pub IsCitation : Citation F → Type 0
  IsCitation c =
      (hit : SearchHit F) × (item_at (c.index - 1) hits ≡ some hit) × (c ≡ citation c.index hit)

  abbrev Cited : List ℕ → Result (List (Citation F)) → Type 0
  Cited ns r = (cs : List (Citation F)) × (r ≡ ok cs) × (indices cs ≡ ns) × All IsCitation cs

  add_citation-Cited :
      (n : ℕ) (ns : List ℕ) (r : Result (List (Citation F)))
      → (hit : SearchHit F) → item_at (n - 1) hits ≡ some hit
      → Cited ns r
      → Cited (n ∷ ns) (add_citation n (item_at (n - 1) hits) r)
  unfolding add_citation citation
  add_citation-Cited n ns r hit e (cs, p, q, h) = (
    citation n hit ∷ cs,
    ap (λ o. add_citation n o r) e ∙ ap (add_citation n (some hit)) p,
    ap (λ is. n ∷ is) q,
    ((hit, e, refl), h),
  )

  citations_of-Cited :
      (ns : List ℕ)
      → All (λ n. in_range (length hits) n ≡ true) ns
      → Cited ns (citations_of hits ns)
  unfolding citations_of
  citations_of-Cited [] h = ([], refl, refl, tt)
  citations_of-Cited (n ∷ ns) h =
      let (hit, e) = item_at-some (n - 1) hits (ground (arith, h.0)) in
      add_citation-Cited n ns (citations_of hits ns) hit e (citations_of-Cited ns h.1)

  -- `build_answer` does not raise. Its citations have ascending indices, each is that of the hit at
  -- its index, and the indices are the numbers of the text's markers that have a hit.
  pub build_answer_lem :
      (s : Text)
      → (cs : List (Citation F)) × (build_answer s hits ≡ ok (record { text = s; citations = cs }))
        × IsAscending (indices cs)
        × All IsCitation cs
        × ((k : ℕ) → has k (indices cs) ≡ (in_range (length hits) k && has k (markers s)))
  unfolding build_answer cited_indices answer_with
  build_answer_lem s =
      let used = filterb (in_range (length hits)) (markers s) in
      let (cs, p, q, h) =
        citations_of-Cited (sorted_set used)
          (All-sorted_set _ used (All-filterb (in_range (length hits)) (markers s))) in
      (
        cs,
        ap (answer_with s) p,
        rw q (sorted_set-IsAscending used),
        h,
        λ k. ap (has k) q ∙ has-sorted_set k used ∙ has-filterb_range (length hits) k (markers s),
      )
