-- ===== src/Chunk/Sections.antt =====
-- chunk/sections.py: a chunk for each section, with the heading repeated on continuations.
use alvis.Base.{String, ◌<>◌, ℕ, min, Bool, true, false, not, ◌&&◌, List, [], ◌∷◌, ◌++◌, map}
use alvis.Base.{eqb, if◌then◌else◌, string_eq, ◌==◌}
use Prim.Native.Char.{code}
use alvis.Models.{Chunk, Document}
use alvis.Text.{Text, to_list}
use alvis.Chunk.Auto.{split_text, section_text, chunk_sections}

-- `s.startswith(prefix)`
unfoldable pub starts_with : Text → Text → Bool
starts_with s [] = true
starts_with [] (c ∷ prefix) = false
starts_with (d ∷ s) (c ∷ prefix) = eqb (code c) (code d) && starts_with s prefix

-- `f"# {section.heading}"`
abbrev pub heading_line : String → Text
heading_line heading = to_list ("# " <> heading)

-- What becomes of a part that is not the first of its section.
unfoldable pub continuation : String → Text → Text
unfolding starts_with string_eq
continuation heading part =
    if not (heading == "") && not (starts_with part (heading_line heading))
    then heading_line heading ++ to_list "\n\n" ++ part
    else part

unfoldable pub continued : String → List Text → List Text
unfolding continuation
continued heading [] = []
continued heading (part ∷ parts) = part ∷ map (continuation heading) parts

pub record SectionsChunker : Type 0 where
  pub max_tokens : ℕ
  pub overlap : ℕ

abbrev pub sections_chunker : ℕ → ℕ → SectionsChunker
sections_chunker max_tokens overlap = record {
  max_tokens = max_tokens;
  overlap = min overlap max_tokens;
}

-- `SectionsChunker.chunk`
unfoldable pub chunk : SectionsChunker → Document → List Chunk
unfolding split_text section_text continued
chunk chunker document =
    chunk_sections document
      (λ section.
        continued section.heading
          (split_text (to_list (section_text section)) chunker.max_tokens chunker.overlap))
      document.sections
