-- ===== src/Index/Keyword.antt =====
-- index/keyword.py: BM25 scores of tokenized texts.
use Prim.Native.Char.{Char, code}
use alvis.Base.{
  String, ℕ, ◌+◌, ◌-◌, ◌≡◌, refl, ap, Bool, true, false, ◌&&◌, ◌||◌, List, [], ◌∷◌, ◌++◌, map,
}
use alvis.Base.{eqb, leb, ◌==◌, contains, string_eq, if◌then◌else◌, length, countb, length-map}
use native.Mathlib.Omega.{arith}
use alvis.Errors.{Result, ok, err, value_error}
use alvis.Floats.{Floats}
use alvis.Text.{Text, to_list, of_list, flush}

-- `[a-zа-яё0-9]`
is_token_char : Char → Bool
is_token_char c =
    let n = code c in
    (leb 97 n && leb n 122) || (leb 1072 n && leb n 1103) || eqb n 1105 || (leb 48 n && leb n 57)

runs_after : Text → Text → List Text
unfolding is_token_char
runs_after token [] = flush token []
runs_after token (c ∷ s) = elim (is_token_char c) [
  | true ↦ runs_after (token ++ c ∷ []) s
  | false ↦ flush token (runs_after [] s)
]

-- `tokenize`, for the method `lower` of texts
unfoldable pub tokenize : (Text → Text) → String → List String
unfolding runs_after
tokenize lower text = map of_list (runs_after [] (lower (to_list text)))

without : String → List String → List String
unfolding string_eq
without x [] = []
without x (y ∷ ys) = let rest = without x ys in if x == y then rest else y ∷ rest

-- `set(xs)`, in the order of first occurrence
distinct : List String → List String
unfolding without
distinct [] = []
distinct (x ∷ xs) = x ∷ without x (distinct xs)

sum_lengths : List (List String) → ℕ
sum_lengths [] = 0
sum_lengths (d ∷ documents) = length d + sum_lengths documents

-- `Counter(doc)[term]`
frequency : String → List String → ℕ
unfolding string_eq
frequency term document = countb (λ t. t == term) document

-- `zip(xs, ys, strict=True)`
unfoldable pub zip_strict {ℓ κ} :
    {A : Type ℓ} {B : Type κ} → List A → List B → Result (List (A × B))
zip_strict [] [] = ok []
zip_strict (x ∷ xs) (y ∷ ys) = elim (zip_strict xs ys) [
  | ok rest ↦ ok ((x, y) ∷ rest)
  | err e ↦ err e
]
zip_strict _ _ = err (value_error "zip() arguments have different lengths")

pub zip_strict_total {ℓ κ} :
    {A : Type ℓ} {B : Type κ} (xs : List A) (ys : List B)
    → length ys ≡ length xs
    → (zs : List (A × B)) × (zip_strict xs ys ≡ ok zs) × (map (λ z. z.0) zs ≡ xs)
unfolding zip_strict
zip_strict_total [] [] h = ([], refl, refl)
zip_strict_total [] (y ∷ ys) h = absurd (omega arith)
zip_strict_total (x ∷ xs) [] h = absurd (omega arith)
zip_strict_total (x ∷ xs) (y ∷ ys) h =
    let (zs, p, q) = zip_strict_total xs ys (omega arith) in
    ((x, y) ∷ zs, rw p refl, ap (λ r. x ∷ r) q)

module _ {F : Type 0} (fl : Floats F) (log : F → F) where
  half : F
  half = fl.div fl.one (fl.of_nat 2)

  -- `k1` and `b` of the defaults
  k1 : F
  k1 = fl.div (fl.of_nat 3) (fl.of_nat 2)

  b : F
  b = fl.div (fl.of_nat 3) (fl.of_nat 4)

  -- `idf[term]`
  idf : List (List String) → String → F
  unfolding half frequency string_eq
  idf documents term =
      let doc_freq = countb (λ d. contains term d) documents in
      log (
        fl.add
          (fl.div (fl.add (fl.of_nat (length documents - doc_freq)) half)
            (fl.add (fl.of_nat doc_freq) half))
          fl.one)

  -- `length / avg_len if avg_len else 1.0`
  norm_len : List (List String) → List String → F
  unfolding sum_lengths
  norm_len documents document =
      let avg_len = fl.div (fl.of_nat (sum_lengths documents)) (fl.of_nat (length documents)) in
      if fl.eq avg_len fl.zero then fl.one else fl.div (fl.of_nat (length document)) avg_len

  -- The inner loop over the terms, on the score so far.
  add_terms : List (List String) → List String → List String → F → F
  unfolding idf norm_len frequency k1 b
  add_terms documents document [] score = score
  add_terms documents document (term ∷ terms) score =
      let n = frequency term document in
      let denominator = fl.add (fl.of_nat n) (
        fl.mul k1 (
          fl.add (fl.add fl.one (fl.mul fl.minus_one b))
            (fl.mul b (norm_len documents document)))) in
      let next = fl.add score (
        fl.div (fl.mul (idf documents term) (fl.mul (fl.of_nat n) (fl.add k1 fl.one)))
          denominator) in
      add_terms documents document terms (if eqb n 0 then score else next)

  -- `bm25_scores`; the set of terms is walked in the order of first occurrence.
  unfoldable pub bm25_scores : List String → List (List String) → List F
  unfolding add_terms distinct
  bm25_scores [] documents = map (λ d. fl.zero) documents
  bm25_scores (t ∷ query) documents =
      map (λ d. add_terms documents d (distinct (t ∷ query)) fl.zero) documents

  pub length-bm25_scores :
      (query : List String) (documents : List (List String))
      → length (bm25_scores query documents) ≡ length documents
  unfolding bm25_scores
  length-bm25_scores [] documents = length-map _ documents
  length-bm25_scores (t ∷ query) documents = length-map _ documents
