-- ===== src/Tests/ChunkRuns.antt =====
-- The chunking strategies on short texts.
use alvis.Base.{◌≡◌, ◌≤◌, refl, true, [], ◌∷◌, max, map, arith, string_eq}
use alvis.Base.{All, Any, length}
use alvis.Text.{is_char, Text, to_list, of_list, is_space, has_text}
use alvis.Chunk.Auto.{split_text, paragraphs_of}
use alvis.Chunk.Auto.Budget.{Fits, split_text-Fits}
use alvis.Chunk.Auto.Paragraphs.{Placed, split_text-Placed}
use alvis.Chunk.Size.{split_by_chars, slices_from}
use alvis.Chunk.Size.Parts.{Holds, split_by_chars-Holds, split_by_chars-bounds}

abbrev three_paragraphs : Text
three_paragraphs = to_list "aa bb\n\ncc dd\n\nee"

packed : map of_list (split_text three_paragraphs 2 1) ≡ "aa bb" ∷ "bb\n\ncc dd" ∷ "dd\n\nee" ∷ []
unfolding split_text is_char is_space
packed = refl

-- An overlap of 0 carries the chunk over but for its first word: `text[-0:]` is the whole text.
overlap_of_zero :
    map of_list (split_text (to_list "a b c\n\nd e f\n\ng") 2 0)
    ≡ "a b c" ∷ "b c\n\nd e f" ∷ "c\n\nd e f\n\ng" ∷ []
unfolding split_text is_char is_space
overlap_of_zero = refl

split_text-Fits_example : All (Fits 14) (split_text three_paragraphs 2 1)
split_text-Fits_example = split_text-Fits three_paragraphs 2 1 (omega arith)

split_text-Placed_example :
    All (λ p. Placed 8 p (split_text three_paragraphs 2 1)) (paragraphs_of three_paragraphs)
split_text-Placed_example = split_text-Placed three_paragraphs 2 1

sliced : map of_list (split_by_chars (to_list "aa bb cc dd") 6 2) ≡ "aa bb" ∷ "bb cc" ∷ "cc dd" ∷ []
unfolding split_by_chars is_space
sliced = refl

split_by_chars-Holds_example :
    Any (Holds (to_list "aa bb cc dd") 3) (split_by_chars (to_list "aa bb cc dd") 6 2)
    × (slices_from 14 (to_list "aa bb cc dd") 6 2 0 ≡ slices_from 11 (to_list "aa bb cc dd") 6 2 0)
unfolding is_space
split_by_chars-Holds_example = split_by_chars-Holds (to_list "aa bb cc dd") 6 2 3 3 _ refl refl

split_by_chars-bounds_example :
    All
      (λ part. (length part ≤ max 1 6) × (has_text part ≡ true))
      (split_by_chars (to_list "aa bb cc dd") 6 2)
split_by_chars-bounds_example = split_by_chars-bounds (to_list "aa bb cc dd") 6 2
