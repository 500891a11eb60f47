-- ===== src/Chunk/Size.antt =====
-- chunk/size.py: slices on a budget of characters, cut at a space where there is one.
pub mod Coverage
pub mod Parts
use Prim.Native.Char.{Char, code}
use alvis.Base.{
  ℕ, zero, suc, ◌+◌, ◌-◌, ◌/◌, min, max, Bool, true, false, not, ◌&&◌, ◌||◌, Option, none, some,
  List, [], ◌∷◌, ◌++◌, map,
}
use alvis.Base.{ltb, leb, if◌then◌else◌, filterb, length, drop}
use alvis.Models.{Chunk, Document, Section}
use alvis.Text.{Text, to_list, is_char, has_text, rfind_space, slice}
use alvis.Chunk.Auto.{section_text, chunk_sections}

-- `boundary if boundary > position else end`, for the index of the boundary from the position
at_boundary : ℕ → ℕ → Option ℕ → ℕ
at_boundary position end (some (suc n)) = position + suc n
at_boundary position end _ = end

-- Where the slice at a position ends.
slice_end : Text → ℕ → ℕ → ℕ
unfolding at_boundary rfind_space
slice_end s size position =
    let end = min (position + size) (length s) in
    if ltb end (length s)
    then at_boundary position end (rfind_space (slice position end s))
    else end

-- `c in " \t\n"`
pub is_blank : Char → Bool
unfolding is_char
is_blank c = is_char 32 c || is_char 9 c || is_char 10 c

-- How many characters of a text are blank before the first that is not.
count_blank : Text → ℕ
unfolding is_blank
count_blank [] = 0
count_blank (c ∷ s) = let rest = count_blank s in if is_blank c then suc rest else 0

-- The position that the overlap asks for; where it would be no progress, the end. In Python the
-- difference can be negative, and then it is not above the position either.
next_position : ℕ → ℕ → ℕ → ℕ
next_position overlap_chars position end =
    let next = if ltb 0 overlap_chars then end - overlap_chars else end in
    if leb next position then end else next

-- `while position < length and text[position] in " \t\n": position += 1`
skip_blank : Text → ℕ → ℕ
unfolding count_blank
skip_blank s position = position + count_blank (drop position s)

-- The starts and ends of the slices that the loop takes from a position on, on fuel.
pub slices_from : ℕ → Text → ℕ → ℕ → ℕ → List (ℕ × ℕ)
unfolding slice_end next_position skip_blank
slices_from zero s size overlap_chars position = []
slices_from (suc fuel) s size overlap_chars position =
    let end = slice_end s size position in
    let rest =
      slices_from fuel s size overlap_chars
        (skip_blank s (next_position overlap_chars position end)) in
    if ltb position (length s)
    then (position, end) ∷ (if leb (length s) end then [] else rest)
    else []

-- `_split_by_chars`
unfoldable pub split_by_chars : Text → ℕ → ℕ → List Text
unfolding slices_from has_text
split_by_chars s max_chars overlap_chars =
    let size = max 1 max_chars in
    if leb (length s) size
    then (if has_text s then s ∷ [] else [])
    else filterb has_text
        (map (λ (start, end). slice start end s) (slices_from (length s) s size overlap_chars 0))

pub record SizeChunker : Type 0 where
  pub max_chars : ℕ
  pub overlap_chars : ℕ

-- `__init__`
abbrev pub size_chunker : ℕ → ℕ → SizeChunker
size_chunker max_chars overlap_chars = record {
  max_chars = max_chars;
  overlap_chars = min overlap_chars (max_chars / 2);
}

-- `SizeChunker.chunk`
unfoldable pub chunk : SizeChunker → Document → List Chunk
unfolding split_by_chars section_text
chunk chunker document =
    chunk_sections document
      (λ section.
        split_by_chars (to_list (section_text section)) chunker.max_chars chunker.overlap_chars)
      document.sections
