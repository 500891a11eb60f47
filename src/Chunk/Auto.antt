-- ===== src/Chunk/Auto.antt =====
-- chunk/auto.py: paragraphs packed into chunks on a budget of characters.
pub mod Budget
pub mod Content
pub mod Paragraphs
use Prim.Native.Char.{Char, code}
use alvis.Base.{
  String, ◌<>◌, ℕ, zero, suc, ◌+◌, ◌*◌, min, Bool, true, false, not, ◌&&◌, Option, none, some, List,
  [], ◌∷◌, ◌++◌, map,
}
use alvis.Base.{ltb, leb, if◌then◌else◌, filterb, length, drop, string_eq, ◌==◌}
use alvis.Value.{text}
use alvis.Models.{Chunk, Document, Section}
use alvis.Text.{
  to_list, of_list, Text, is_empty, has_text, lstrip, flush, words, split_paragraphs, find_space,
  last_chars,
}

-- The text between two paragraphs of a chunk, and between two words.
abbrev pub blank_line : Text
blank_line = to_list "\n\n"

abbrev pub blank : Text
blank = to_list " "

-- `window[boundary:].lstrip()` if `boundary > 0`
after_boundary : Text → Option ℕ → Text
unfolding lstrip
after_boundary window (some (suc n)) = lstrip (drop (suc n) window)
after_boundary window _ = window

-- `_tail`
unfoldable pub tail : Text → ℕ → Text
unfolding last_chars after_boundary find_space lstrip
tail s chars =
    if leb (length s) chars
    then []
    else let window = lstrip (last_chars chars s) in after_boundary window (find_space window)

-- The loop of `_hard_split` over the words, with the piece that is being filled.
pub fill_pieces : ℕ → Text → List Text → List Text
fill_pieces budget current [] = flush current []
fill_pieces budget current (word ∷ rest) =
    elim (not (is_empty current) && ltb budget (length current + 1 + length word)) [
      | true ↦ current ∷ fill_pieces budget word rest
      | false ↦
          fill_pieces budget (if is_empty current then word else current ++ blank ++ word) rest
    ]

-- `_hard_split`
unfoldable pub hard_split : Text → ℕ → List Text
unfolding fill_pieces words
hard_split s budget = fill_pieces budget [] (words s)

-- `f"{current}\n\n{paragraph}" if current else paragraph`
add_paragraph : Text → Text → Text
add_paragraph current paragraph =
    if is_empty current then paragraph else current ++ blank_line ++ paragraph

-- The loop of `_split_text` over the paragraphs, with the chunk that is being filled.
pack : ℕ → ℕ → Text → List Text → List Text
unfolding add_paragraph hard_split tail
pack budget overlap_chars current [] = flush current []
pack budget overlap_chars current (paragraph ∷ rest) = elim (ltb budget (length paragraph)) [
  | true ↦ flush current (hard_split paragraph budget ++ pack budget overlap_chars [] rest)
  | false ↦ elim (not (is_empty current) && ltb budget (length current + 2 + length paragraph)) [
    | true ↦
        current
        ∷ pack budget overlap_chars (add_paragraph (tail current overlap_chars) paragraph) rest
    | false ↦ pack budget overlap_chars (add_paragraph current paragraph) rest
  ]
]

-- `[p for p in text.split("\n\n") if p.strip()]`
unfoldable pub paragraphs_of : Text → List Text
unfolding split_paragraphs has_text
paragraphs_of s = filterb has_text (split_paragraphs s)

-- `_split_text`
unfoldable pub split_text : Text → ℕ → ℕ → List Text
unfolding pack paragraphs_of has_text
split_text s max_tokens overlap =
    filterb has_text (pack (max_tokens * 4) (overlap * 4) [] (paragraphs_of s))

-- `_section_text`
unfoldable pub section_text : Section → String
unfolding string_eq
section_text section =
    if section.body == ""
    then ""
    else if section.heading == ""
    then section.body
    else "# " <> section.heading <> "\n\n" <> section.body

-- The chunk of a part of a section.
abbrev pub chunk_of : Document → Section → Text → Chunk
chunk_of document section part = record {
  text = of_list part;
  source_uri = document.uri;
  metadata = ("title", text document.title) ∷ ("heading", text section.heading) ∷ [];
}

-- The loop of a chunker over the sections, for the parts that it makes of a section.
abbrev pub chunk_sections : Document → (Section → List Text) → List Section → List Chunk
chunk_sections document parts [] = []
chunk_sections document parts (section ∷ rest) =
    map (chunk_of document section) (parts section) ++ chunk_sections document parts rest

pub record AutoChunker : Type 0 where
  pub max_tokens : ℕ
  pub overlap : ℕ

-- `__init__`
abbrev pub auto_chunker : ℕ → ℕ → AutoChunker
auto_chunker max_tokens overlap = record {
  max_tokens = max_tokens;
  overlap = min overlap max_tokens;
}

-- `AutoChunker.chunk`
unfoldable pub chunk : AutoChunker → Document → List Chunk
unfolding split_text section_text has_text
chunk chunker document =
    chunk_sections document
      (λ section.
        filterb has_text
          (split_text (to_list (section_text section)) chunker.max_tokens chunker.overlap))
      document.sections
