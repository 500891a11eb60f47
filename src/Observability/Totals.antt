-- ===== src/Observability/Totals.antt =====
-- What counters and histograms tally of the recorded events.
use alvis.Base.{
  String, ℕ, ◌+◌, ◌≡◌, refl, ap, sym, ◌∙◌, inl, inr, Bool, true, false, ◌&&◌, Option, List, [], ◌∷◌,
  arith,
}
use alvis.Base.{Eq, Bool-cases, ◌==◌, string_eq, countb, length, if◌then◌else◌}
use alvis.Base.Dict.{Dict, lookup, insert, or_default, lookup-insert}
use alvis.Floats.{Floats}
use alvis.Observability.{
  Labels, labels_eq, label_key, Histogram, Metrics, no_metrics, inc, new_histogram, metric_buckets,
  count_buckets, note, observe,
}

pub data Event (F : Type 0) : Type 0 where
  counted : String → ℕ → Option Labels → Event F
  observed : String → F → Option Labels → Event F

both_equal :
    {A B : Type 0} ⦃d : Eq A⦄ ⦃e : Eq B⦄ (a c : A) (b k : B)
    → (a == c && b == k) ≡ true
    → (a ≡ c) × (b ≡ k)
both_equal a c b k h = ground arith

-- A family of a dict of dicts, at a name and labels; nothing is the same as a new one.
module _ {V : Type 0} (default : V) where
  abbrev pub at : String → Labels → Dict String (Dict Labels V) → V
  at name key d = or_default default (lookup key (or_default [] (lookup name d)))

  at-insert :
      (name other : String) (key label : Labels) (v : V) (d : Dict String (Dict Labels V))
      → at name key (insert other (insert label v (or_default [] (lookup other d))) d)
        ≡ (if name == other && key == label then v else at name key d)
  at-insert name other key label v d = ground (
    arith,
    lookup-insert name other (insert label v (or_default [] (lookup other d))) d,
    lookup-insert key label v (or_default [] (lookup other d)),
  )

  same_place :
      {A B : Type 0} ⦃d : Eq A⦄ ⦃e : Eq B⦄ (P : A → B → V) (f : V → V) (a c : A) (b k : B) (x : V)
      → (if a == c && b == k then f (P c k) else x) ≡ (if a == c && b == k then f (P a b) else x)
  same_place P f a c b k x = elim (Bool-cases (a == c && b == k)) [
    | inl h ↦ let (p, q) = both_equal a c b k h in rw h (ap f (sym (λ i. P (p i) (q i))))
    | inr h ↦ rw h refl
  ]

  -- What was at a place and is replaced.
  at-update :
      (f : V → V) (name other : String) (key label : Labels) (d : Dict String (Dict Labels V))
      → at name key
          (insert other (insert label (f (at other label d)) (or_default [] (lookup other d))) d)
        ≡ (if name == other && key == label then f (at name key d) else at name key d)
  at-update f name other key label d =
      at-insert name other key label (f (at other label d)) d
      ∙ same_place (λ n k. at n k d) f name other key label (at name key d)

zero_add : (n : ℕ) → 0 + n ≡ n
zero_add n = omega arith

add_if :
    (b : Bool) (old amount rest : ℕ)
    → (if b then old + amount else old) + rest ≡ old + ((if b then amount else 0) + rest)
add_if b old amount rest = ground arith

-- Whether an event is about a name and a label set.
abbrev is_about : String → Labels → String → Option Labels → Bool
is_about name key other labels = name == other && key == label_key labels

-- The sum of what was counted, and the values that were observed.
unfoldable pub total : {F : Type 0} → String → Labels → List (Event F) → ℕ
unfolding label_key string_eq labels_eq
total name key [] = 0
total name key (counted n amount labels ∷ events) =
    (if is_about name key n labels then amount else 0) + total name key events
total name key (observed n value labels ∷ events) = total name key events

unfoldable pub values_of : {F : Type 0} → String → Labels → List (Event F) → List F
unfolding label_key string_eq labels_eq
values_of name key [] = []
values_of name key (counted n amount labels ∷ events) = values_of name key events
values_of name key (observed n value labels ∷ events) =
    let rest = values_of name key events in
    if is_about name key n labels then value ∷ rest else rest

module _ {F : Type 0} ⦃same : Eq F⦄ (fl : Floats F) (leq : F → F → Bool) (inf : F) where
  unfoldable pub record_event : Event F → Metrics F → Metrics F
  unfolding inc observe
  record_event (counted name amount labels) m = inc name amount labels m
  record_event (observed name value labels) m = observe fl leq inf name value labels m

  unfoldable pub record_all : List (Event F) → Metrics F → Metrics F
  unfolding record_event
  record_all [] m = m
  record_all (e ∷ events) m = record_all events (record_event e m)

  note_all : List F → Histogram F → Histogram F
  unfolding note
  note_all [] h = h
  note_all (v ∷ values) h = note_all values (note fl leq inf v h)

  abbrev pub add_all : List F → F → F
  add_all [] sum = sum
  add_all (v ∷ values) sum = add_all values (fl.add sum v)

  note_if :
      (b : Bool) (value : F) (values : List F) (h : Histogram F)
      → note_all values (if b then note fl leq inf value h else h)
        ≡ note_all (if b then value ∷ values else values) h
  unfolding note_all
  note_if true value values h = refl
  note_if false value values h = refl

  record_all_counted :
      (name : String) (key : Labels) (events : List (Event F)) (m : Metrics F)
      → at 0 name key (record_all events m).counters
        ≡ at 0 name key m.counters + total name key events
  unfolding record_all record_event inc observe total
  record_all_counted name key [] m = omega arith
  record_all_counted name key (counted n amount labels ∷ events) m =
      record_all_counted name key events (inc n amount labels m)
      ∙ ap (λ x. x + total name key events)
          (at-update 0 (λ x. x + amount) name n key (label_key labels) m.counters)
      ∙ add_if (is_about name key n labels) (at 0 name key m.counters) amount
          (total name key events)
  record_all_counted name key (observed n value labels ∷ events) m =
      record_all_counted name key events (observe fl leq inf n value labels m)

  record_all_observed :
      (name : String) (key : Labels) (events : List (Event F)) (m : Metrics F)
      → at (new_histogram fl leq inf) name key (record_all events m).histograms
        ≡ note_all (values_of name key events) (at (new_histogram fl leq inf) name key m.histograms)
  unfolding record_all record_event inc observe values_of note_all
  record_all_observed name key [] m = refl
  record_all_observed name key (counted n amount labels ∷ events) m =
      record_all_observed name key events (inc n amount labels m)
  record_all_observed name key (observed n value labels ∷ events) m =
      record_all_observed name key events (observe fl leq inf n value labels m)
      ∙ ap (note_all (values_of name key events)) (
          at-update (new_histogram fl leq inf) (note fl leq inf value) name n key (label_key labels)
            m.histograms)
      ∙ note_if (is_about name key n labels) value (values_of name key events)
          (at (new_histogram fl leq inf) name key m.histograms)

  -- How often a bucket is among those of a histogram, each time it counts.
  count_buckets_lem :
      (b value : F) (buckets : List F) (counts : Dict F ℕ)
      → or_default 0 (lookup b (count_buckets fl leq inf value buckets counts))
        ≡ or_default 0 (lookup b counts) + (if leq value b then countb (λ c. b == c) buckets else 0)
  unfolding count_buckets
  count_buckets_lem b value [] counts = ground arith
  count_buckets_lem b value (c ∷ buckets) counts = ground (
    arith,
    count_buckets_lem b value buckets
        (if leq value c then insert c (or_default 0 (lookup c counts) + 1) counts else counts),
    lookup-insert b c (or_default 0 (lookup c counts) + 1) counts,
  )

  note_all_count :
      (values : List F) (h : Histogram F) → (note_all values h).count ≡ h.count + length values
  unfolding note_all note
  note_all_count [] h = omega arith
  note_all_count (v ∷ values) h = omega (arith, note_all_count values (note fl leq inf v h))

  note_all_sum :
      (values : List F) (h : Histogram F) → (note_all values h).sum ≡ add_all values h.sum
  unfolding note_all note
  note_all_sum [] h = refl
  note_all_sum (v ∷ values) h = note_all_sum values (note fl leq inf v h)

  note_all_bucket :
      (b : F) (values : List F) (h : Histogram F)
      → countb (λ c. b == c) h.buckets ≡ 1
      → or_default 0 (lookup b (note_all values h).counts)
        ≡ or_default 0 (lookup b h.counts) + countb (λ v. leq v b) values
  unfolding note_all note
  note_all_bucket b [] h one = omega arith
  note_all_bucket b (v ∷ values) h one = ground (
    arith,
    note_all_bucket b values (note fl leq inf v h) one,
    count_buckets_lem b v h.buckets h.counts,
  )

  -- Whatever events there were, in whatever order: at a name and a key of labels, a counter is the sum of
  -- the amounts that were counted under the name with labels of this key; a histogram counts and sums the
  -- values observed so, and under a bound that stands once among its buckets it counts the
  -- values up to the bound.
  pub record_all_lem :
      (events : List (Event F)) (name : String) (key : Labels) (bound : F)
      → countb (λ c. bound == c) (metric_buckets fl leq inf) ≡ 1
      → let m = record_all events no_metrics in
        let h = at (new_histogram fl leq inf) name key m.histograms in
        let values = values_of name key events in
        (at 0 name key m.counters ≡ total name key events)
        × (h.count ≡ length values)
        × (h.sum ≡ add_all values fl.zero)
        × (or_default 0 (lookup bound h.counts) ≡ countb (λ v. leq v bound) values)
  unfolding lookup new_histogram
  record_all_lem events name key bound once =
      let seen = record_all_observed name key events no_metrics in
      let values = values_of name key events in
      let h = new_histogram fl leq inf in
      (
        record_all_counted name key events no_metrics ∙ zero_add _,
        ap (λ k. k.count) seen ∙ note_all_count values h ∙ zero_add _,
        ap (λ k. k.sum) seen ∙ note_all_sum values h,
        ap (λ k. or_default 0 (lookup bound k.counts)) seen
            ∙ note_all_bucket bound values h once
            ∙ zero_add _,
      )
