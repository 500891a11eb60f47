-- ===== src/Tests/MetricRuns.antt =====
-- Events that are recorded, and what the metrics tally.
use native.Mathlib.Decide.{ℕ_discrete}
use alvis.Base.{ℕ, ◌≡◌, refl, none, some, List, [], ◌∷◌, Eq, string_eq, leb, countb, length}
use alvis.Base.Dict.{lookup, or_default}
use alvis.Observability.{
  no_metrics, new_histogram, metric_buckets, render_plain_text, inc, labels_eq,
}
use alvis.Observability.Totals.{
  Event, counted, observed, record_all, at, total, values_of, add_all, record_all_lem,
}
use alvis.Tests.Fixtures.{whole}

instance unfoldable numbers : Eq ℕ
unfolding ℕ_discrete
numbers = record { dec = ℕ_discrete }

abbrev events : List (Event ℕ)
events =
    counted "runs" 2 (some (("b", "2") ∷ ("a", "1") ∷ []))
    ∷ observed "seconds" 7 none
    ∷ counted "runs" 3 (some (("a", "1") ∷ ("b", "2") ∷ []))
    ∷ observed "seconds" 300 none
    ∷ counted "seconds" 4 none
    ∷ counted "seconds" 5 (some [])
    ∷ []

record_all_lem_example :
    let m = record_all whole leb 99999 events no_metrics in
    let h = at (new_histogram whole leb 99999) "seconds" [] m.histograms in
    let values = values_of "seconds" [] events in
    (at 0 "seconds" [] m.counters ≡ total "seconds" [] events)
    × (h.count ≡ length values)
    × (h.sum ≡ add_all whole leb 99999 values 0)
    × (or_default 0 (lookup 250 h.counts) ≡ countb (λ v. leb v 250) values)
unfolding numbers metric_buckets
record_all_lem_example = record_all_lem whole leb 99999 events "seconds" [] 250 refl

-- Two label sets whose plain text is the same, for a quote in a value is not escaped.
not_escaped :
    render_plain_text whole leb 99999
      (λ n. "1")
      (λ n. "1")
      (inc "c" 1 (some (("a", "x\",b=\"y") ∷ [])) no_metrics)
    ≡ render_plain_text whole leb 99999
        (λ n. "1")
        (λ n. "1")
        (inc "c" 1 (some (("a", "x") ∷ ("b", "y") ∷ [])) no_metrics)
unfolding render_plain_text inc string_eq labels_eq
not_escaped = refl
