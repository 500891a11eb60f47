-- ===== src/Rerank.antt =====
-- rerank.py: the order that the chat model answers, and the fall-back to the old one.
pub mod Order
use Prim.Native.Char.{Char, code}
use alvis.Base.{
  String, ℕ, zero, suc, ◌+◌, ◌-◌, ◌*◌, Bool, true, false, not, ◌&&◌, ◌||◌, Option, none, some, List,
  [], ◌∷◌, ◌++◌,
}
use alvis.Base.{ltb, leb, eqb, if◌then◌else◌, length, take}
use alvis.Base.Sort.{sort_desc}
use alvis.Models.{SearchHit}
use alvis.Errors.{Result, ok, err, value_error, other_error}
use alvis.Text.{Text, is_char, is_space}
use alvis.Text.Slices.{item_at}
use alvis.Answer.{is_digit}

-- `[\s\d,]`
is_inner : Char → Bool
unfolding is_space is_digit is_char
is_inner c = is_space c || is_digit c || is_char 44 c

prepend : Char → Option Text → Option Text
prepend c none = none
prepend c (some s) = some (c ∷ s)

-- What stands before the closing bracket, if it is all inner characters.
array_body : Text → Option Text
unfolding is_inner prepend
array_body [] = none
array_body (c ∷ s) =
    let rest = array_body s in
    if is_char 93 c then some [] else if is_inner c then prepend c rest else none

or_else : Option Text → Option Text → Option Text
or_else (some s) later = some s
or_else none later = later

-- `re.search(r"\[[\s\d,]*\]", content)`: the inside of the first array.
unfoldable pub find_array : Text → Option Text
unfolding array_body or_else
find_array [] = none
find_array (c ∷ s) =
    let later = find_array s in if is_char 91 c then or_else (array_body s) later else later

-- Where `json.loads` stands in an array of numbers.
pub data Place : Type 0 where
  start after_comma after_zero : Place
  in_number after_number : ℕ → Place

number_end : ℕ → Option (List ℕ) → Option (List ℕ)
number_end n none = none
number_end n (some ns) = some (n ∷ ns)

-- JSON's own white space, of which the pattern admits more.
is_json_space : Char → Bool
unfolding is_char
is_json_space c = is_char 32 c || is_char 9 c || is_char 10 c || is_char 13 c

on_digit : ℕ → Place → Option Place
on_digit d start = some (if eqb d 0 then after_zero else in_number d)
on_digit d after_comma = some (if eqb d 0 then after_zero else in_number d)
on_digit d after_zero = none
on_digit d (in_number n) = some (in_number (n * 10 + d))
on_digit d (after_number n) = none

on_space : Place → Place
on_space start = start
on_space after_comma = after_comma
on_space after_zero = after_number 0
on_space (in_number n) = after_number n
on_space (after_number n) = after_number n

-- The number that a comma or the end of the array closes.
closes : Place → Option ℕ
closes start = none
closes after_comma = none
closes after_zero = some 0
closes (in_number n) = some n
closes (after_number n) = some n

at_end : Place → Option (List ℕ)
unfolding closes
at_end start = some []
at_end place = elim (closes place) [ none ↦ none | some n ↦ some (n ∷ []) ]

numbers_from : Place → Text → Option (List ℕ)
unfolding at_end on_digit on_space closes number_end is_json_space is_digit is_char
numbers_from place [] = at_end place
numbers_from place (c ∷ s) = elim (is_json_space c) [
  | true ↦ numbers_from (on_space place) s
  | false ↦ elim (is_digit c) [
    | true ↦ elim (on_digit (code c - 48) place) [ none ↦ none | some next ↦ numbers_from next s ]
    | false ↦ elim (is_char 44 c) [
      | true ↦ elim (closes place) [
        | none ↦ none
        | some n ↦ number_end n (numbers_from after_comma s)
      ]
      | false ↦ none
    ]
  ]
]

-- `json.loads(match.group(0))` of the inside of the array
unfoldable pub parse_numbers : Text → Option (List ℕ)
unfolding numbers_from
parse_numbers s = numbers_from start s

-- `[int(number) - 1 for number in numbers]`, where -1 is in no range
unfoldable pub to_indices : List ℕ → Option (List ℕ)
unfolding number_end
to_indices [] = some []
to_indices (zero ∷ ns) = none
to_indices (suc n ∷ ns) = number_end n (to_indices ns)

-- `list(range(start, start + count))`
abbrev pub range_from : ℕ → ℕ → List ℕ
range_from first zero = []
range_from first (suc count) = first ∷ range_from (suc first) count

abbrev pub same_numbers : List ℕ → List ℕ → Bool
same_numbers [] [] = true
same_numbers (m ∷ ms) (n ∷ ns) = eqb m n && same_numbers ms ns
same_numbers _ _ = false

-- `sorted(indices)`
abbrev pub sorted : List ℕ → List ℕ
sorted ns = sort_desc (λ m n. ltb n m) (λ n. n) ns

checked : ℕ → Option (List ℕ) → Result (List ℕ)
unfolding sort_desc
checked count none = err (value_error "rerank response is not a permutation")
checked count (some indices) =
    if same_numbers (sorted indices) (range_from 0 count)
    then ok indices
    else err (value_error "rerank response is not a permutation")

indices_of : ℕ → Option (List ℕ) → Result (List ℕ)
unfolding checked to_indices
indices_of count none = err (value_error "invalid JSON")
indices_of count (some numbers) = checked count (to_indices numbers)

order_of : ℕ → Option Text → Result (List ℕ)
unfolding indices_of parse_numbers
order_of count none = err (value_error "no JSON array found in rerank response")
order_of count (some body) = indices_of count (parse_numbers body)

-- `_parse_order`
unfoldable pub parse_order : Text → ℕ → Result (List ℕ)
unfolding order_of find_array
parse_order content count = order_of count (find_array content)

-- The content that the endpoint answered, or the error of the request.
order_in : ℕ → Result Text → Result (List ℕ)
unfolding parse_order
order_in count (err e) = err e
order_in count (ok content) = parse_order content count

module _ {F : Type 0} where
  add_hit : Option (SearchHit F) → Result (List (SearchHit F)) → Result (List (SearchHit F))
  add_hit none rest = err (other_error "list index out of range")
  add_hit (some hit) (err e) = err e
  add_hit (some hit) (ok hits) = ok (hit ∷ hits)

  -- `[hits[i] for i in order]`
  unfoldable pub hits_at : List (SearchHit F) → List ℕ → Result (List (SearchHit F))
  unfolding add_hit
  hits_at hits [] = ok []
  hits_at hits (i ∷ order) = add_hit (item_at i hits) (hits_at hits order)

  first_of : ℕ → Result (List (SearchHit F)) → Result (List (SearchHit F))
  first_of top_k (err e) = err e
  first_of top_k (ok hits) = ok (take top_k hits)

  reordered : ℕ → List (SearchHit F) → Result (List ℕ) → Result (List (SearchHit F))
  unfolding hits_at first_of
  reordered top_k hits (err e) = ok (take top_k hits)
  reordered top_k hits (ok order) = first_of top_k (hits_at hits order)

  -- `rerank`
  unfoldable pub rerank : Result Text → List (SearchHit F) → ℕ → Result (List (SearchHit F))
  unfolding reordered order_in
  rerank response [] top_k = ok []
  rerank response (hit ∷ hits) top_k =
      reordered top_k (hit ∷ hits) (order_in (length (hit ∷ hits)) response)
