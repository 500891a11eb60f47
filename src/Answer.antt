-- ===== src/Answer.antt =====
-- answer.py: the citations of an answer, from the markers that it holds.
pub mod Citations
use Prim.Native.Char.{Char, code}
use alvis.Base.{
  String, ◌<>◌, ℕ, zero, suc, ◌+◌, ◌-◌, ◌*◌, Bool, true, false, ◌&&◌, Option, none, some, List, [],
  ◌∷◌, ◌++◌,
}
use alvis.Base.{ltb, leb, eqb, if◌then◌else◌, filterb, length, take}
use alvis.Models.{Metadata, SearchHit}
use alvis.Errors.{Result, ok, err, other_error}
use alvis.Text.{Text, to_list, of_list, is_char, strip, words, join}
use alvis.Text.Slices.{item_at}

pub record Citation (F : Type 0) : Type 0 where
  pub index : ℕ
  pub source_uri : String
  pub score : F
  pub snippet : Text
  pub metadata : Metadata

pub record Answer (F : Type 0) : Type 0 where
  pub text : Text
  pub citations : List (Citation F)

-- `c.isdigit()` for the ASCII digits, and the number that one stands for.
unfoldable pub is_digit : Char → Bool
is_digit c = leb 48 (code c) && leb (code c) 57

-- The pattern `\[(\d{1,3})\]` as an automaton: after an opening bracket it has read some digits.
abbrev Bracket : Type 0
Bracket = Option (ℕ × ℕ)

read_digit : Char → Bracket → Bracket
read_digit c none = none
read_digit c (some (count, value)) = some (suc count, value * 10 + (code c - 48))

-- A closing bracket ends a marker of one to three digits.
closed : Bracket → List ℕ → List ℕ
closed none rest = rest
closed (some (count, value)) rest = if leb 1 count && leb count 3 then value ∷ rest else rest

-- `[int(m) for m in re.findall(pattern, text)]`
markers_from : Bracket → Text → List ℕ
unfolding read_digit closed is_digit is_char
markers_from state [] = []
markers_from state (c ∷ s) = elim (is_char 91 c) [
  | true ↦ markers_from (some (0, 0)) s
  | false ↦ elim (is_digit c) [
    | true ↦ markers_from (read_digit c state) s
    | false ↦ let rest = markers_from none s in if is_char 93 c then closed state rest else rest
  ]
]

unfoldable pub markers : Text → List ℕ
unfolding markers_from
markers s = markers_from none s

-- A number in a sorted list without repetitions.
unfoldable pub insert_index : ℕ → List ℕ → List ℕ
insert_index n [] = n ∷ []
insert_index n (m ∷ ms) =
    let later = insert_index n ms in
    if ltb n m then n ∷ m ∷ ms else if eqb n m then m ∷ ms else m ∷ later

-- `sorted(set(numbers))`
unfoldable pub sorted_set : List ℕ → List ℕ
unfolding insert_index
sorted_set [] = []
sorted_set (n ∷ ns) = insert_index n (sorted_set ns)

-- `1 <= int(m) <= len(hits)`
abbrev pub in_range : ℕ → ℕ → Bool
in_range count n = leb 1 n && leb n count

unfoldable pub cited_indices : Text → ℕ → List ℕ
unfolding markers sorted_set
cited_indices s count = sorted_set (filterb (in_range count) (markers s))

module _ {F : Type 0} where
  -- `_citation`
  unfoldable pub citation : ℕ → SearchHit F → Citation F
  unfolding join words
  citation index hit = record {
    index = index;
    source_uri = hit.source_uri;
    score = hit.score;
    snippet = take 180 (join (to_list " ") (words (to_list hit.text)));
    metadata = hit.metadata;
  }

  add_citation : ℕ → Option (SearchHit F) → Result (List (Citation F)) → Result (List (Citation F))
  unfolding citation
  add_citation index none rest = err (other_error "list index out of range")
  add_citation index (some hit) (err e) = err e
  add_citation index (some hit) (ok rest) = ok (citation index hit ∷ rest)

  -- The citations of the indices, where an index without a hit raises.
  citations_of : List (SearchHit F) → List ℕ → Result (List (Citation F))
  unfolding add_citation
  citations_of hits [] = ok []
  citations_of hits (index ∷ rest) =
      add_citation index (item_at (index - 1) hits) (citations_of hits rest)

  answer_with : Text → Result (List (Citation F)) → Result (Answer F)
  answer_with s (err e) = err e
  answer_with s (ok citations) = ok (record { text = s; citations = citations })

  -- `build_answer`
  unfoldable pub build_answer : Text → List (SearchHit F) → Result (Answer F)
  unfolding answer_with citations_of cited_indices
  build_answer s hits = answer_with s (citations_of hits (cited_indices s (length hits)))

  -- The lines of the offline answer, and its citations, from an index on.
  excerpt_lines : (ℕ → Text) → ℕ → List (SearchHit F) → List Text
  unfolding strip
  excerpt_lines show index [] = []
  excerpt_lines show index (hit ∷ hits) =
      (to_list "[" ++ show index ++ to_list "] " ++ strip (to_list hit.text))
      ∷ (to_list "    @ " ++ to_list hit.source_uri)
      ∷ excerpt_lines show (suc index) hits

  all_citations : ℕ → List (SearchHit F) → List (Citation F)
  unfolding citation
  all_citations index [] = []
  all_citations index (hit ∷ hits) = citation index hit ∷ all_citations (suc index) hits

  -- `citation_answer`, for the decimal digits of a number.
  unfoldable pub citation_answer : (ℕ → Text) → String → List (SearchHit F) → Answer F
  unfolding excerpt_lines all_citations join
  citation_answer show reason hits = record {
    text = join (to_list "\n") (
        to_list (reason <> "; here are the most relevant excerpts.")
        ∷ []
        ∷ excerpt_lines show 1 hits);
    citations = all_citations 1 hits;
  }
