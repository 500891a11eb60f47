-- ===== src/Text.antt =====
-- The methods of Python's `str` that the program walks texts with, over lists of characters.
pub mod Words
pub mod Slices
pub mod Lines
use Prim.Native.Char.{Char, code}
use Prim.Native.String.{String}
pub use text.Mathlib.TextBridge.{of_list}
use alvis.Base.{
  ℕ, zero, suc, ◌-◌, Bool, true, false, not, ◌&&◌, ◌||◌, Option, none, some, List, [], ◌∷◌, ◌++◌,
}
use alvis.Base.{leb, ltb, eqb, if◌then◌else◌, length, drop, take}

abbrev pub Text : Type 0
Text = List Char

-- The characters of a text.
abbrev pub to_list : String → Text
to_list String.[] = []
to_list (String.◌∷◌ c s) = c ∷ to_list s

between : ℕ → ℕ → ℕ → Bool
between a b n = leb a n && leb n b

-- `c.isspace()`
unfoldable pub is_space : Char → Bool
unfolding between
is_space c =
    let n = code c in
    between 9 13 n
    || between 28 32 n
    || eqb n 133
    || eqb n 160
    || eqb n 5760
    || between 8192 8202 n
    || between 8232 8233 n
    || eqb n 8239
    || eqb n 8287
    || eqb n 12288

unfoldable pub is_char : ℕ → Char → Bool
is_char n c = eqb (code c) n

abbrev pub is_empty : Text → Bool
is_empty [] = true
is_empty (c ∷ s) = false

-- `bool(s.strip())`
unfoldable pub has_text : Text → Bool
has_text [] = false
has_text (c ∷ s) = not (is_space c) || has_text s

unfoldable pub lstrip : Text → Text
lstrip [] = []
lstrip (c ∷ s) = let rest = lstrip s in if is_space c then rest else c ∷ s

unfoldable pub rstrip : Text → Text
rstrip [] = []
rstrip (c ∷ s) = let rest = rstrip s in if is_space c && is_empty rest then [] else c ∷ rest

unfoldable pub strip : Text → Text
unfolding lstrip rstrip
strip s = rstrip (lstrip s)

-- A text that is not empty goes before the others.
abbrev pub flush : Text → List Text → List Text
flush [] parts = parts
flush (c ∷ s) parts = (c ∷ s) ∷ parts

words_after : Text → Text → List Text
words_after word [] = flush word []
words_after word (c ∷ s) = elim (is_space c) [
  | true ↦ flush word (words_after [] s)
  | false ↦ words_after (word ++ c ∷ []) s
]

-- `s.split()`
unfoldable pub words : Text → List Text
unfolding words_after
words s = words_after [] s

paragraphs_after : Text → Text → List Text
paragraphs_after part [] = part ∷ []
paragraphs_after part (c ∷ []) = (part ++ c ∷ []) ∷ []
paragraphs_after part (c ∷ d ∷ s) = elim (is_char 10 c && is_char 10 d) [
  | true ↦ part ∷ paragraphs_after [] s
  | false ↦ paragraphs_after (part ++ c ∷ []) (d ∷ s)
]

-- `s.split("\n\n")`
unfoldable pub split_paragraphs : Text → List Text
unfolding paragraphs_after
split_paragraphs s = paragraphs_after [] s

-- `s.find(" ")`
unfoldable pub find_space : Text → Option ℕ
find_space [] = none
find_space (c ∷ s) =
    if is_char 32 c then some 0 else elim (find_space s) [ none ↦ none | some i ↦ some (suc i) ]

-- `s.rfind(" ")`
unfoldable pub rfind_space : Text → Option ℕ
rfind_space [] = none
rfind_space (c ∷ s) = elim (rfind_space s) [
  | none ↦ if is_char 32 c then some 0 else none
  | some i ↦ some (suc i)
]

-- `s[-n:]`, which for 0 is the whole text
unfoldable pub last_chars : ℕ → Text → Text
last_chars zero s = s
last_chars (suc n) s = drop (length s - suc n) s

-- `s[start:end]`
abbrev pub slice : ℕ → ℕ → Text → Text
slice start end s = take (end - start) (drop start s)

-- `sep.join(parts)`
unfoldable pub join : Text → List Text → Text
join sep [] = []
join sep (s ∷ []) = s
join sep (s ∷ t ∷ parts) = s ++ sep ++ join sep (t ∷ parts)
