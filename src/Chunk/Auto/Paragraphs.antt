-- ===== src/Chunk/Auto/Paragraphs.antt =====
-- No paragraph of a text is lost by the paragraph strategy.
use alvis.Base.{
  ℕ, ◌+◌, ◌*◌, ◌<◌, ◌≡◌, refl, ap, sym, ◌⊎◌, inl, inr, true, false, not, ◌&&◌, ◌||◌, List, [], ◌∷◌,
  ◌++◌, arith,
}
use alvis.Base.{
  ltb, elim_cases, filterb, length, All, All-imp, Any, Any-append, Any-append_right, Any-filterb,
}
use mathlib.Core.Path.{subst}
use alvis.Text.{split_paragraphs, Text, is_empty, has_text, words}
use alvis.Chunk.Auto.{blank_line, tail, hard_split, add_paragraph, pack, paragraphs_of, split_text}
use alvis.Base.{All-zip, All-filterb}
use alvis.Text.Words.{IsWord, words-IsWord}
use alvis.Chunk.Auto.Content.{
  IsInfix, IsInfix-refl, IsInfix-append, IsInfix-append_right, IsInfix-has_text, has_text-is_empty,
  Any-flush, Any-flush_later, fill_pieces-word,
}

-- What is in the chunk that is being filled ends in a chunk.
pack-keeps :
    (part : Text) (budget overlap_chars : ℕ) (current : Text) (rest : List Text)
    → is_empty current ≡ false
    → IsInfix part current
    → Any (IsInfix part) (pack budget overlap_chars current rest)
unfolding pack
pack-keeps part budget overlap_chars current [] e h = Any-flush (IsInfix part) current [] e h
pack-keeps part budget overlap_chars current (p ∷ rest) e h =
    elim_cases (Any (IsInfix part)) (ltb budget (length p)) _ _
      (λ _. Any-flush (IsInfix part) current _ e h)
      (λ _.
        elim_cases (Any (IsInfix part))
          (not (is_empty current) && ltb budget (length current + 2 + length p)) _ _ (λ _. inl h)
          (λ _.
            kept current e h (pack-keeps part budget overlap_chars (add_paragraph current p) rest)))
  where
    kept :
        (s : Text)
        → is_empty s ≡ false
        → IsInfix part s
        → (is_empty (add_paragraph s p) ≡ false
            → IsInfix part (add_paragraph s p)
            → Any (IsInfix part) (pack budget overlap_chars (add_paragraph s p) rest))
        → Any (IsInfix part) (pack budget overlap_chars (add_paragraph s p) rest)
    kept [] e h go = cc
    kept (c ∷ s) e h go =
        unfold add_paragraph in
        go refl
          (IsInfix-append part (c ∷ s ++ blank_line) p (IsInfix-append part (c ∷ s) blank_line h))

-- The paragraph is in one of the chunks, or it is longer than the budget and each of its words is.
abbrev pub Placed : ℕ → Text → List Text → Type 0
Placed budget p chunks =
    Any (IsInfix p) chunks ⊎ ((budget < length p) × All (λ w. Any (IsInfix w) chunks) (words p))

Placed-mono :
    (budget : ℕ) (p : Text) (xs ys : List Text)
    → ((part : Text) → Any (IsInfix part) xs → Any (IsInfix part) ys)
    → Placed budget p xs
    → Placed budget p ys
Placed-mono budget p xs ys f (inl h) = inl (f p h)
Placed-mono budget p xs ys f (inr (k, h)) = inr (k, All-imp (words p) (λ w. f w) h)

add_paragraph-IsInfix : (s p : Text) → IsInfix p (add_paragraph s p)
unfolding add_paragraph
add_paragraph-IsInfix [] p = IsInfix-refl p
add_paragraph-IsInfix (c ∷ s) p = IsInfix-append_right (c ∷ s ++ blank_line) p

add_paragraph-is_empty : (s p : Text) → is_empty p ≡ false → is_empty (add_paragraph s p) ≡ false
unfolding add_paragraph
add_paragraph-is_empty [] p e = e
add_paragraph-is_empty (c ∷ s) p e = refl

each_of : (ws : List Text) → All (λ w. Any (λ x. x ≡ w) ws) ws
each_of [] = tt
each_of (w ∷ ws) = (inl refl, All-imp ws (λ x h. inr h) (each_of ws))

module _ (budget overlap_chars : ℕ) (p : Text) (e : is_empty p ≡ false) where
  longer_paragraph :
      (rest : List Text) → All (λ w. Any (IsInfix w) (hard_split p budget ++ rest)) (words p)
  unfolding hard_split
  longer_paragraph rest =
      All-zip (words p)
        (λ w is_word h.
          Any-append (IsInfix w) (hard_split p budget) rest
            (fill_pieces-word w budget [] (words p) is_word.0 h))
        (words-IsWord p) (each_of (words p))

  first_paragraph :
      (current : Text) (rest : List Text)
      → Placed budget p (pack budget overlap_chars current (p ∷ rest))
  unfolding pack
  first_paragraph current rest =
      elim_cases (Placed budget p) (ltb budget (length p)) _ _
        (λ long.
          Placed-mono budget p _ _ (λ part. Any-flush_later (IsInfix part) current _)
            (inr (ground (arith, long), longer_paragraph _)))
        (λ _.
          elim_cases (Placed budget p)
            (not (is_empty current) && ltb budget (length current + 2 + length p)) _ _
            (λ _. inl (inr (into (tail current overlap_chars)))) (λ _. inl (into current)))
    where
      into : (s : Text) → Any (IsInfix p) (pack budget overlap_chars (add_paragraph s p) rest)
      into s =
          pack-keeps p budget overlap_chars (add_paragraph s p) rest (add_paragraph-is_empty s p e)
            (add_paragraph-IsInfix s p)

  pack-Placed :
      (current : Text) (rest : List Text)
      → Any (λ q. q ≡ p) rest
      → Placed budget p (pack budget overlap_chars current rest)
  unfolding pack
  pack-Placed current [] h = absurd h
  pack-Placed current (q ∷ rest) (inl same) =
      subst (λ q. Placed budget p (pack budget overlap_chars current (q ∷ rest))) (sym same)
        (first_paragraph current rest)
  pack-Placed current (q ∷ rest) (inr h) =
      elim_cases (Placed budget p) (ltb budget (length q)) _ _
        (λ _.
          Placed-mono budget p (pack budget overlap_chars [] rest) _
            (λ part k.
              Any-flush_later (IsInfix part) current _
                (Any-append_right (IsInfix part) (hard_split q budget) _ k))
            (pack-Placed [] rest h))
        (λ _.
          elim_cases (Placed budget p)
            (not (is_empty current) && ltb budget (length current + 2 + length q)) _ _
            (λ _.
              Placed-mono budget p
                (pack budget overlap_chars (add_paragraph (tail current overlap_chars) q) rest)
                (current
                  ∷ pack budget overlap_chars (add_paragraph (tail current overlap_chars) q) rest)
                (λ part k. inr k)
                (pack-Placed (add_paragraph (tail current overlap_chars) q) rest h))
            (λ _. pack-Placed (add_paragraph current q) rest h))

IsWord-has_text : (w : Text) → IsWord w → has_text w ≡ true
unfolding has_text
IsWord-has_text [] h = cc
IsWord-has_text (c ∷ w) (e, h) = ap (λ b. not b || has_text w) h.0

-- Chunks without a text can go.
Placed-filterb :
    (budget : ℕ) (p : Text) (chunks : List Text)
    → has_text p ≡ true
    → Placed budget p chunks
    → Placed budget p (filterb has_text chunks)
Placed-filterb budget p chunks e (inl h) =
    inl (Any-filterb (IsInfix p) has_text chunks (λ s. IsInfix-has_text p s e) h)
Placed-filterb budget p chunks e (inr (k, h)) = inr (
  k,
  All-zip (words p)
      (λ w is_word.
        Any-filterb (IsInfix w) has_text chunks
          (λ s. IsInfix-has_text w s (IsWord-has_text w is_word)))
      (words-IsWord p) h,
)

-- Each paragraph of a text that has more than spaces stands in one of its chunks, unless it is longer
-- than the budget: then each of its words does.
pub split_text-Placed :
    (s : Text) (max_tokens overlap : ℕ)
    → All (λ p. Placed (max_tokens * 4) p (split_text s max_tokens overlap)) (paragraphs_of s)
unfolding split_text
split_text-Placed s max_tokens overlap =
    All-zip (paragraphs_of s)
      (λ p e h.
        Placed-filterb (max_tokens * 4) p (pack (max_tokens * 4) (overlap * 4) [] (paragraphs_of s))
          e
          (pack-Placed (max_tokens * 4) (overlap * 4) p (has_text-is_empty p e) [] (paragraphs_of s)
            h))
      (unfold paragraphs_of in All-filterb has_text (split_paragraphs s))
      (each_of (paragraphs_of s))
