-- ===== src/Tests/ExtractRuns.antt =====
-- Flattening a JSON value with a list, an empty text and a null in it.
use alvis.Base.{String, ℕ, zero, suc, ◌≡◌, refl, [], ◌∷◌, ◌↔◌, Any, string_eq}
use alvis.Value.{Value, null, text, seq, obj, nil, cons, end, field}
use alvis.Models.{Section}
use alvis.Extract.Json.{flatten}
use alvis.Extract.Json.Paths.{IsLeaf}
use alvis.Extract.Json.Leaves.{flatten_iff}
use alvis.Text.{Text, to_list, is_space}
use alvis.Text.Lines.{splitlines}
use alvis.Extract.Markdown.{sections_after}
use alvis.Extract.Markdown.Bodies.{
  all_solid, bodies_of, plain_lines, named, headings_of, headings, sections_after_lem,
}
use alvis.Tests.Fixtures.{repr}

abbrev digits : ℕ → String
digits zero = "0"
digits (suc n) = "1"

abbrev payload : Value
payload = obj (
    field "user" (obj (field "name" (text "Ann") (field "nick" null end)))
      (field "tags" (seq (cons (text "") (cons (text "new") nil))) end))

flattened :
    flatten repr digits payload [] []
    ≡ record { heading = "user.name"; body = "Ann" }
      ∷ record { heading = "tags.1"; body = "new" }
      ∷ []
unfolding flatten string_eq
flattened = refl

flatten_iff_example :
    Any
      (λ (t : Section). t ≡ record { heading = "tags.1"; body = "new" })
      (flatten repr digits payload [] [])
    ↔ IsLeaf repr digits (record { heading = "tags.1"; body = "new" }) payload []
flatten_iff_example = flatten_iff repr digits payload (record { heading = "tags.1"; body = "new" })

-- A text with lines before its first heading, and an empty section.
abbrev page : Text
page = to_list "intro\n# One\n## Two\nbody  x\n#tag"

sections_after_lem_example :
    let sections = sections_after [] [] (splitlines page) in
    (all_solid (bodies_of sections) ≡ all_solid (plain_lines (splitlines page)))
    × (named (headings_of sections) ≡ named (headings (splitlines page)))
sections_after_lem_example = sections_after_lem page

page_sections :
    sections_after [] [] (splitlines page)
    ≡ record { heading = ""; body = "intro" }
      ∷ record { heading = "One"; body = "" }
      ∷ record { heading = "Two"; body = "body  x\n#tag" }
      ∷ []
unfolding sections_after splitlines is_space
page_sections = refl
