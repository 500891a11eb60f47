-- ===== src/Chunk/Auto/Content.antt =====
-- Parts of texts, and the words of a text that is split hard: each ends in a piece.
use alvis.Base.{
  ℕ, ◌+◌, ◌≡◌, refl, ap, sym, ◌∙◌, inl, inr, true, false, not, ◌&&◌, List, [], ◌∷◌, ◌++◌, arith,
}
use alvis.Base.{ltb, if◌then◌else◌, elim_cases, length, Any}
use mathlib.Core.Path.{subst}
use alvis.Text.{Text, is_empty, has_text, flush}
use alvis.Chunk.Auto.{blank, fill_pieces}

-- The part stands somewhere in the text.
abbrev pub IsInfix : Text → Text → Type 0
IsInfix part s = (before : Text) × ((after : Text) × (s ≡ before ++ part ++ after))

append_assoc : (s t u : Text) → s ++ t ++ u ≡ s ++ (t ++ u)
append_assoc [] t u = refl
append_assoc (c ∷ s) t u = ap (λ r. c ∷ r) (append_assoc s t u)

append_empty : (s : Text) → s ++ [] ≡ s
append_empty [] = refl
append_empty (c ∷ s) = ap (λ r. c ∷ r) (append_empty s)

pub IsInfix-refl : (s : Text) → IsInfix s s
IsInfix-refl s = ([], ([], sym (append_empty s)))

pub IsInfix-append : (part s t : Text) → IsInfix part s → IsInfix part (s ++ t)
IsInfix-append part s t (u, (v, e)) =
    (u, (v ++ t, ap (λ r. r ++ t) e ∙ append_assoc (u ++ part) v t))

pub IsInfix-append_right : (s t : Text) → IsInfix t (s ++ t)
IsInfix-append_right s t = (s, ([], sym (append_empty (s ++ t))))

has_text-append : (s t : Text) → has_text t ≡ true → has_text (s ++ t) ≡ true
unfolding has_text
has_text-append [] t h = h
has_text-append (c ∷ s) t h = ground (arith, has_text-append s t h)

has_text-append_left : (s t : Text) → has_text s ≡ true → has_text (s ++ t) ≡ true
unfolding has_text
has_text-append_left [] t h = cc
has_text-append_left (c ∷ s) t h = ground (arith, has_text-append_left s t)

pub IsInfix-has_text : (part s : Text) → has_text part ≡ true → IsInfix part s → has_text s ≡ true
IsInfix-has_text part s h (u, (v, e)) =
    ap has_text e ∙ has_text-append_left (u ++ part) v (has_text-append u part h)

pub has_text-is_empty : (s : Text) → has_text s ≡ true → is_empty s ≡ false
unfolding has_text
has_text-is_empty [] h = cc
has_text-is_empty (c ∷ s) h = refl

pub Any-flush :
    (P : Text → Type 0) (s : Text) (parts : List Text)
    → is_empty s ≡ false
    → P s
    → Any P (flush s parts)
Any-flush P [] parts e h = cc
Any-flush P (c ∷ s) parts e h = inl h

pub Any-flush_later :
    (P : Text → Type 0) (s : Text) (parts : List Text) → Any P parts → Any P (flush s parts)
Any-flush_later P [] parts h = h
Any-flush_later P (c ∷ s) parts h = inr h

-- A word that is in the piece that is being filled ends in a piece.
fill_pieces-keeps :
    (part : Text) (budget : ℕ) (current : Text) (rest : List Text)
    → is_empty current ≡ false
    → IsInfix part current
    → Any (IsInfix part) (fill_pieces budget current rest)
unfolding fill_pieces
fill_pieces-keeps part budget current [] e h = Any-flush (IsInfix part) current [] e h
fill_pieces-keeps part budget current (word ∷ rest) e h =
    elim_cases (Any (IsInfix part))
      (not (is_empty current) && ltb budget (length current + 1 + length word))
      (current ∷ fill_pieces budget word rest)
      (fill_pieces budget (if is_empty current then word else current ++ blank ++ word) rest)
      (λ _. inl h)
      (λ _. rw e (
        fill_pieces-keeps part budget (current ++ blank ++ word) rest (longer current e)
          (IsInfix-append part (current ++ blank) word (IsInfix-append part current blank h))))
  where
    longer : (s : Text) → is_empty s ≡ false → is_empty (s ++ blank ++ word) ≡ false
    longer [] e = cc
    longer (c ∷ s) e = refl

-- A word ends in a piece.
pub fill_pieces-word :
    (part : Text) (budget : ℕ) (current : Text) (rest : List Text)
    → is_empty part ≡ false
    → Any (λ w. w ≡ part) rest
    → Any (IsInfix part) (fill_pieces budget current rest)
unfolding fill_pieces
fill_pieces-word part budget current [] e h = absurd h
fill_pieces-word part budget current (word ∷ rest) e h =
    elim_cases (Any (IsInfix part))
      (not (is_empty current) && ltb budget (length current + 1 + length word))
      (current ∷ fill_pieces budget word rest)
      (fill_pieces budget (if is_empty current then word else current ++ blank ++ word) rest)
      (λ _. inr (
        placed word h (λ w. subst (IsInfix part) (sym w) (IsInfix-refl part))
          (λ w. ap is_empty w ∙ e) (fill_pieces-word part budget word rest e)))
      (λ _.
        placed (if is_empty current then word else current ++ blank ++ word) h
          (λ w. with_current current w) (λ w. not_empty current w)
          (fill_pieces-word part budget
            (if is_empty current then word else current ++ blank ++ word) rest e))
  where
    placed :
        (next : Text)
        → Any (λ w. w ≡ part) (word ∷ rest)
        → (word ≡ part → IsInfix part next)
        → (word ≡ part → is_empty next ≡ false)
        → (Any (λ w. w ≡ part) rest → Any (IsInfix part) (fill_pieces budget next rest))
        → Any (IsInfix part) (fill_pieces budget next rest)
    placed next (inl w) f g go = fill_pieces-keeps part budget next rest (g w) (f w)
    placed next (inr k) f g go = go k

    with_current :
        (s : Text) → word ≡ part → IsInfix part (if is_empty s then word else s ++ blank ++ word)
    with_current [] w = subst (IsInfix part) (sym w) (IsInfix-refl part)
    with_current (c ∷ s) w =
        subst (λ t. IsInfix part (c ∷ s ++ blank ++ t)) (sym w)
          (IsInfix-append_right (c ∷ s ++ blank) part)

    not_empty :
        (s : Text)
        → word ≡ part
        → is_empty (if is_empty s then word else s ++ blank ++ word) ≡ false
    not_empty [] w = ap is_empty w ∙ e
    not_empty (c ∷ s) w = refl
