-- ===== src/Extract/Markdown/Bodies.antt =====
-- The sections of a text keep its headings, and all of its other characters that are no spaces.
use alvis.Base.{
  ◌≡◌, refl, ap, sym, ◌∙◌, true, not, Option, none, some, List, [], ◌∷◌, ◌++◌, map, arith,
}
use alvis.Base.{filterb}
use alvis.Models.{Section}
use alvis.Text.{Text, to_list, of_list, strip, lstrip, rstrip, join, is_space, is_empty}
use alvis.Text.Lines.{splitlines}
use alvis.Extract.Markdown.{heading_of, section_of, sections_after, closed, no_lines}

-- The characters of a text that are no spaces.
abbrev pub solid : Text → Text
solid s = filterb (λ c. not (is_space c)) s

solid-append : (s t : Text) → solid (s ++ t) ≡ solid s ++ solid t
solid-append [] t = refl
solid-append (c ∷ s) t = ground (arith, solid-append s t)

to_list-of_list : (s : Text) → to_list (of_list s) ≡ s
to_list-of_list [] = refl
to_list-of_list (c ∷ s) = ap (λ t. c ∷ t) (to_list-of_list s)

solid-lstrip : (s : Text) → solid (lstrip s) ≡ solid s
unfolding lstrip
solid-lstrip [] = refl
solid-lstrip (c ∷ s) = ground (arith, solid-lstrip s)

solid_empty : (s : Text) → is_empty s ≡ true → solid s ≡ []
solid_empty [] h = refl
solid_empty (c ∷ s) h = absurd cc

solid-rstrip : (s : Text) → solid (rstrip s) ≡ solid s
unfolding rstrip
solid-rstrip [] = refl
solid-rstrip (c ∷ s) = ground (arith, solid-rstrip s, solid_empty (rstrip s))

solid-strip : (s : Text) → solid (strip s) ≡ solid s
unfolding strip
solid-strip s = solid-rstrip (lstrip s) ∙ solid-lstrip s

append_nil : (s : Text) → s ++ [] ≡ s
append_nil [] = refl
append_nil (c ∷ s) = ap (λ r. c ∷ r) (append_nil s)

append_assoc : (s t u : Text) → (s ++ t) ++ u ≡ s ++ (t ++ u)
append_assoc [] t u = refl
append_assoc (c ∷ s) t u = ap (λ r. c ∷ r) (append_assoc s t u)

-- The solid characters of several texts.
abbrev pub all_solid : List Text → Text
all_solid [] = []
all_solid (s ∷ texts) = solid s ++ all_solid texts

solid-join : (texts : List Text) → solid (join (to_list "\n") texts) ≡ all_solid texts
unfolding join is_space
solid-join [] = refl
solid-join (s ∷ []) = sym (append_nil (solid s))
solid-join (s ∷ t ∷ texts) =
    solid-append (s ++ to_list "\n") (join (to_list "\n") (t ∷ texts))
    ∙ ap (λ r. r ++ solid (join (to_list "\n") (t ∷ texts)))
        (solid-append s (to_list "\n") ∙ append_nil (solid s))
    ∙ ap (λ r. solid s ++ r) (solid-join (t ∷ texts))

all_solid-append : (xs ys : List Text) → all_solid (xs ++ ys) ≡ all_solid xs ++ all_solid ys
all_solid-append [] ys = refl
all_solid-append (x ∷ xs) ys =
    ap (λ r. solid x ++ r) (all_solid-append xs ys)
    ∙ sym (append_assoc (solid x) (all_solid xs) (all_solid ys))

-- The lines that are no headings, and the headings of the others.
unfoldable pub plain_lines : List Text → List Text
unfolding heading_of
plain_lines [] = []
plain_lines (line ∷ lines) = elim (heading_of line) [
  | none ↦ line ∷ plain_lines lines
  | some h ↦ plain_lines lines
]

unfoldable pub headings : List Text → List Text
unfolding heading_of
headings [] = []
headings (line ∷ lines) = elim (heading_of line) [
  | none ↦ headings lines
  | some h ↦ h ∷ headings lines
]

abbrev pub bodies_of : List Section → List Text
bodies_of sections = map (λ s. to_list s.body) sections

abbrev pub headings_of : List Section → List Text
headings_of sections = map (λ s. to_list s.heading) sections

abbrev pub named : List Text → List Text
named texts = filterb (λ s. not (is_empty s)) texts

section_of-body :
    (heading : Text) (body : List Text)
    → solid (to_list (section_of heading body).body) ≡ all_solid body
unfolding section_of
section_of-body heading body =
    ap solid (to_list-of_list (strip (join (to_list "\n") body)))
    ∙ solid-strip (join (to_list "\n") body)
    ∙ solid-join body

section_of-heading :
    (heading : Text) (body : List Text) → to_list (section_of heading body).heading ≡ heading
unfolding section_of
section_of-heading heading body = to_list-of_list heading

-- What a section and the sections after it hold.
abbrev Holds : Text → List Text → List Text → List Section → Type 0
Holds heading body lines sections =
    (all_solid (bodies_of sections) ≡ all_solid body ++ all_solid (plain_lines lines))
    × (named (headings_of sections) ≡ named (heading ∷ headings lines))

closed_bodies :
    (heading : Text) (body : List Text) (rest : List Section)
    → (all_solid (bodies_of (closed heading body rest))
        ≡ all_solid body ++ all_solid (bodies_of rest))
      × (named (headings_of (closed heading body rest)) ≡ named (heading ∷ headings_of rest))
unfolding closed no_lines
closed_bodies [] [] rest = (refl, refl)
closed_bodies [] (line ∷ body) rest =
    (ap (λ r. r ++ all_solid (bodies_of rest)) (section_of-body [] (line ∷ body)), refl)
closed_bodies (c ∷ heading) body rest = (
  ap (λ r. r ++ all_solid (bodies_of rest)) (section_of-body (c ∷ heading) body),
  ap (λ h. (c ∷ h) ∷ named (headings_of rest)) (to_list-of_list heading),
)

plain_Holds :
    (heading : Text) (body : List Text) (line : Text) (lines : List Text) (sections : List Section)
    → Holds heading (body ++ line ∷ []) lines sections
    → (all_solid (bodies_of sections) ≡ all_solid body ++ all_solid (line ∷ plain_lines lines))
      × (named (headings_of sections) ≡ named (heading ∷ headings lines))
plain_Holds heading body line lines sections (p, q) = (
  p
      ∙ ap (λ r. r ++ all_solid (plain_lines lines))
          (all_solid-append body (line ∷ [])
            ∙ ap (λ r. all_solid body ++ r) (append_nil (solid line)))
      ∙ append_assoc (all_solid body) (solid line) (all_solid (plain_lines lines)),
  q,
)

named_cons : (s : Text) (xs ys : List Text) → named xs ≡ named ys → named (s ∷ xs) ≡ named (s ∷ ys)
named_cons [] xs ys h = h
named_cons (c ∷ s) xs ys h = ap (λ r. (c ∷ s) ∷ r) h

closed_Holds :
    (heading : Text) (body : List Text) (h : Text) (lines : List Text) (rest : List Section)
    → Holds h [] lines rest
    → (all_solid (bodies_of (closed heading body rest))
        ≡ all_solid body ++ all_solid (plain_lines lines))
      × (named (headings_of (closed heading body rest)) ≡ named (heading ∷ h ∷ headings lines))
closed_Holds heading body h lines rest (p, q) =
    let (bodies, heads) = closed_bodies heading body rest in
    (
      bodies ∙ ap (λ r. all_solid body ++ r) p,
      heads ∙ named_cons heading (headings_of rest) (h ∷ headings lines) q,
    )

-- One line, whatever it is taken for.
line_Holds :
    (heading : Text) (body : List Text) (line : Text) (lines : List Text) (o : Option Text)
    → Holds heading (body ++ line ∷ []) lines (sections_after heading (body ++ line ∷ []) lines)
    → ((h : Text) → Holds h [] lines (sections_after h [] lines))
    → let sections : List Section = elim o [
      | none ↦ sections_after heading (body ++ line ∷ []) lines
      | some h ↦ closed heading body (sections_after h [] lines)
    ] in
      (all_solid (bodies_of sections)
        ≡ all_solid body
          ++ all_solid (elim o [ none ↦ line ∷ plain_lines lines | some h ↦ plain_lines lines ]))
      × (named (headings_of sections)
          ≡ named (heading ∷ elim o [ none ↦ headings lines | some h ↦ h ∷ headings lines ]))
line_Holds heading body line lines none p later =
    plain_Holds heading body line lines (sections_after heading (body ++ line ∷ []) lines) p
line_Holds heading body line lines (some h) p later =
    closed_Holds heading body h lines (sections_after h [] lines) (later h)

sections_after-Holds :
    (heading : Text) (body lines : List Text)
    → Holds heading body lines (sections_after heading body lines)
unfolding sections_after plain_lines headings
sections_after-Holds heading body [] = (
  ap (λ r. r ++ []) (section_of-body heading body),
  ap (λ h. named (h ∷ [])) (section_of-heading heading body),
)
sections_after-Holds heading body (line ∷ lines) =
    line_Holds heading body line lines (heading_of line)
      (sections_after-Holds heading (body ++ line ∷ []) lines)
      (λ h. sections_after-Holds h [] lines)

-- The bodies of the sections of a text hold, in order, the characters of all lines that are no
-- headings, but for spaces; and the headings of the sections are those of the heading lines, in order,
-- where headings without characters are left aside.
pub sections_after_lem :
    (content : Text)
    → let sections = sections_after [] [] (splitlines content) in
      (all_solid (bodies_of sections) ≡ all_solid (plain_lines (splitlines content)))
      × (named (headings_of sections) ≡ named (headings (splitlines content)))
sections_after_lem content = sections_after-Holds [] [] (splitlines content)
