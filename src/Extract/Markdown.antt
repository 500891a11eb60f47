-- ===== src/Extract/Markdown.antt =====
-- extract/markdown.py: texts as sections under their heading lines.
pub mod Bodies
use alvis.Base.{
  String, ℕ, suc, Bool, true, false, ◌&&◌, ◌||◌, not, Option, none, some, List, [], ◌∷◌, ◌++◌,
}
use alvis.Base.{◌==◌, string_eq, leb, if◌then◌else◌, drop}
use alvis.Base.Dict.{lookup}
use alvis.Value.{Value, truth, str}
use alvis.Models.{Artifact, Section, Document}
use alvis.Text.{Text, to_list, of_list, strip, join, is_char, is_empty}
use alvis.Text.Lines.{splitlines}

hashes : Text → ℕ
unfolding is_char
hashes [] = 0
hashes (c ∷ s) = let rest = hashes s in if is_char 35 c then suc rest else 0

starts_space : Text → Bool
unfolding is_char
starts_space [] = false
starts_space (c ∷ s) = is_char 32 c

-- `_heading_level`
unfoldable pub heading_level : Text → Option ℕ
unfolding hashes starts_space
heading_level line =
    let n = hashes line in
    if leb 1 n && (leb n 6 && starts_space (drop n line)) then some n else none

heading_after : Text → Option ℕ → Option Text
unfolding strip
heading_after stripped none = none
heading_after stripped (some level) = some (strip (drop level stripped))

-- The heading of a line, if it is one.
unfoldable pub heading_of : Text → Option Text
unfolding heading_after heading_level strip
heading_of raw_line = heading_after (strip raw_line) (heading_level (strip raw_line))

unfoldable pub section_of : Text → List Text → Section
unfolding strip join
section_of heading body = record {
  heading = of_list heading;
  body = of_list (strip (join (to_list "\n") body));
}

no_lines : List Text → Bool
no_lines [] = true
no_lines (line ∷ lines) = false

-- A section that has neither a heading nor lines is left out before a heading line.
closed : Text → List Text → List Section → List Section
unfolding no_lines section_of
closed heading body rest =
    if is_empty heading && no_lines body then rest else section_of heading body ∷ rest

-- The loop over the lines, from a heading and the lines below it on.
unfoldable pub sections_after : Text → List Text → List Text → List Section
unfolding closed heading_of section_of
sections_after heading body [] = section_of heading body ∷ []
sections_after heading body (line ∷ lines) = elim (heading_of line) [
  | none ↦ sections_after heading (body ++ line ∷ []) lines
  | some h ↦ closed heading body (sections_after h [] lines)
]

or_later : Text → Text → Text
or_later [] later = later
or_later (c ∷ s) later = c ∷ s

-- `first_heading`, the first that has characters
first_heading : List Text → Text
unfolding heading_of or_later
first_heading [] = []
first_heading (line ∷ lines) = elim (heading_of line) [
  | none ↦ first_heading lines
  | some h ↦ or_later h (first_heading lines)
]

module _ (repr : Value → String) (stem : String → String) where
  file_title : String → String
  unfolding string_eq
  file_title uri = if stem uri == "" then "untitled" else stem uri

  given_title : String → Option Value → String
  unfolding file_title truth str
  given_title uri none = file_title uri
  given_title uri (some v) = if truth v then str repr v else file_title uri

  title_of : Artifact → Text → String
  unfolding given_title lookup string_eq
  title_of artifact [] = given_title artifact.uri (lookup "title" artifact.metadata)
  title_of artifact (c ∷ s) = of_list (c ∷ s)

  -- `extract`, for `Path(uri).stem`; the text is decoded.
  unfoldable pub extract_markdown : Artifact → Document
  unfolding title_of first_heading sections_after splitlines
  extract_markdown artifact =
      let lines = splitlines (to_list artifact.body) in
      record {
        schema_version = 1;
        uri = artifact.uri;
        title = title_of artifact (first_heading lines);
        sections = sections_after [] [] lines;
      }
