-- ===== src/Observability.antt =====
-- observability.py: counters and histograms in memory, and their plain text. Bounds and samples have
-- the test `leq`; `inf` is the last bound.
pub mod Totals
use mathlib.Core.List.{List-discrete}
use alvis.Base.{
  String, ◌<>◌, ℕ, ◌+◌, Bool, true, false, not, Option, none, some, List, [], ◌∷◌, ◌++◌, map,
  string_eq,
}
use alvis.Base.{Eq, ◌==◌, pair_eq, if◌then◌else◌}
use alvis.Base.Dict.{Dict, lookup, insert, or_default}
use alvis.Base.Sort.{sort_desc}
use alvis.Floats.{Floats}
use alvis.Text.{Text, to_list, of_list, is_char}
use alvis.Environment.{text_before}

-- The labels of a metric, sorted.
abbrev pub Labels : Type 0
Labels = List (String × String)

instance unfoldable pub labels_eq : Eq Labels
unfolding pair_eq
labels_eq = record { dec = List-discrete (pair_eq.dec) }

sorted_items : {V : Type 0} → Dict String V → Dict String V
unfolding text_before sort_desc
sorted_items d = sort_desc (λ s t. text_before t s) (λ t. t.0) d

unfoldable pub label_key : Option Labels → Labels
unfolding sorted_items
label_key none = []
label_key (some labels) = sorted_items labels

pub record Histogram (F : Type 0) : Type 0 where
  pub buckets : List F
  pub counts : Dict F ℕ
  pub sum : F
  pub count : ℕ

pub record Metrics (F : Type 0) : Type 0 where
  pub counters : Dict String (Dict Labels ℕ)
  pub histograms : Dict String (Dict Labels (Histogram F))

abbrev pub no_metrics : {F : Type 0} → Metrics F
no_metrics = record { counters = []; histograms = [] }

-- `inc`
unfoldable pub inc : {F : Type 0} → String → ℕ → Option Labels → Metrics F → Metrics F
unfolding label_key lookup insert string_eq labels_eq
inc name amount labels m =
    let key = label_key labels in
    let family = or_default [] (lookup name m.counters) in
    record m {
      counters =
          insert name (insert key (or_default 0 (lookup key family) + amount) family) m.counters;
    }

module _ {F : Type 0} ⦃same : Eq F⦄ (fl : Floats F) (leq : F → F → Bool) (inf : F) where
  -- `_METRIC_BUCKETS`
  unfoldable pub metric_buckets : List F
  metric_buckets =
      map (λ n. fl.div (fl.of_nat n) (fl.of_nat 1000))
        (5 ∷ 10 ∷ 25 ∷ 50 ∷ 100 ∷ 250 ∷ 500 ∷ 1000 ∷ 2500 ∷ 5000 ∷ 10000 ∷ [])
      ++ inf ∷ []

  unfoldable pub new_histogram : Histogram F
  unfolding metric_buckets
  new_histogram = record { buckets = metric_buckets; counts = []; sum = fl.zero; count = 0 }

  unfoldable pub count_buckets : F → List F → Dict F ℕ → Dict F ℕ
  unfolding lookup insert
  count_buckets value [] counts = counts
  count_buckets value (bucket ∷ buckets) counts = count_buckets value buckets (
      if leq value bucket
      then insert bucket (or_default 0 (lookup bucket counts) + 1) counts
      else counts)

  -- `_Histogram.observe`
  unfoldable pub note : F → Histogram F → Histogram F
  unfolding count_buckets
  note value h = record {
    buckets = h.buckets;
    counts = count_buckets value h.buckets h.counts;
    sum = fl.add h.sum value;
    count = h.count + 1;
  }

  -- `observe`
  unfoldable pub observe : String → F → Option Labels → Metrics F → Metrics F
  unfolding label_key lookup insert string_eq labels_eq note new_histogram
  observe name value labels m =
      let key = label_key labels in
      let family = or_default [] (lookup name m.histograms) in
      record m {
        histograms =
            insert name
              (insert key (note value (or_default new_histogram (lookup key family))) family)
              m.histograms;
      }

  -- `render_plain_text`, for the digits of a number and the format `:g`
  module _ (show : ℕ → String) (number : F → String) where
    labelled : Labels → List String
    labelled [] = []
    labelled ((k, v) ∷ key) = (k <> "=\"" <> v <> "\"") ∷ labelled key

    joined : List String → String
    joined [] = ""
    joined (s ∷ []) = s
    joined (s ∷ t ∷ parts) = s <> "," <> joined (t ∷ parts)

    format_labels : Labels → String
    unfolding labelled joined
    format_labels [] = ""
    format_labels (l ∷ key) = "{" <> joined (labelled (l ∷ key)) <> "}"

    with_le : Labels → String → String
    unfolding labelled joined
    with_le key le = joined (("le=\"" <> le <> "\"") ∷ labelled key)

    -- `s.replace("_", " ")`
    spaced : Text → Text
    unfolding is_char
    spaced [] = []
    spaced (c ∷ s) = let rest = spaced s in if is_char 95 c then to_list " " ++ rest else c ∷ rest

    help : String → String
    unfolding spaced
    help name = "# HELP " <> name <> " " <> of_list (spaced (to_list name))

    counter_lines : String → Dict Labels ℕ → List String
    unfolding format_labels
    counter_lines name [] = []
    counter_lines name ((key, value) ∷ family) =
        (name <> format_labels key <> " " <> show value) ∷ counter_lines name family

    bucket_lines : String → Labels → List F → Dict F ℕ → List String
    unfolding with_le lookup
    bucket_lines name key [] counts = []
    bucket_lines name key (bucket ∷ buckets) counts =
        let rest = bucket_lines name key buckets counts in
        if fl.eq bucket inf
        then rest
        else (name
            <> "_bucket{"
            <> with_le key (number bucket)
            <> "} "
            <> show (or_default 0 (lookup bucket counts)))
          ∷ rest

    histogram_lines : String → Dict Labels (Histogram F) → List String
    unfolding bucket_lines with_le format_labels
    histogram_lines name [] = []
    histogram_lines name ((key, h) ∷ family) =
        bucket_lines name key h.buckets h.counts
        ++ (name <> "_bucket{" <> with_le key "+Inf" <> "} " <> show h.count)
          ∷ (name <> "_sum" <> format_labels key <> " " <> number h.sum)
          ∷ (name <> "_count" <> format_labels key <> " " <> show h.count)
          ∷ histogram_lines name family

    counter_families : Dict String (Dict Labels ℕ) → List String
    unfolding help counter_lines
    counter_families [] = []
    counter_families ((name, family) ∷ rest) =
        help name ∷ ("# TYPE " <> name <> " counter") ∷ counter_lines name family
        ++ counter_families rest

    histogram_families : Dict String (Dict Labels (Histogram F)) → List String
    unfolding help histogram_lines
    histogram_families [] = []
    histogram_families ((name, family) ∷ rest) =
        help name ∷ ("# TYPE " <> name <> " histogram") ∷ histogram_lines name family
        ++ histogram_families rest

    ended : List String → String
    ended [] = ""
    ended (line ∷ lines) = line <> "\n" <> ended lines

    unfoldable pub render_plain_text : Metrics F → String
    unfolding counter_families histogram_families sorted_items ended
    render_plain_text m = ended (
        counter_families (sorted_items m.counters)
        ++ histogram_families (sorted_items m.histograms))
