-- ===== src/Chunk/Auto/Budget.antt =====
-- How long the chunks of the paragraph strategy are.
use alvis.Base.{
  ℕ, zero, suc, ◌+◌, ◌*◌, ◌≤◌, ◌<◌, ◌≡◌, ◌⊎◌, inl, inr, Bool, true, false, not, ◌&&◌, Option, none,
  some, List, [], ◌∷◌, ◌++◌, arith,
}
use alvis.Base.{
  ltb, leb, if◌then◌else◌, if_cases, elim_cases, length, drop, All, All-append, All-imp,
  All-filterb_of, length-append,
}
use alvis.Text.{Text, is_empty, has_text, lstrip, words, find_space, last_chars}
use alvis.Text.Words.{
  IsWord, All-flush, words-IsWord, length-lstrip, length-drop, length-last_chars,
}
use alvis.Chunk.Auto.{
  blank, blank_line, tail, after_boundary, fill_pieces, hard_split, add_paragraph, pack,
  paragraphs_of, split_text,
}

-- At most `limit` characters, or one word.
abbrev pub Fits : ℕ → Text → Type 0
Fits limit s = (length s ≤ limit) ⊎ IsWord s

length-after_boundary : (s : Text) (o : Option ℕ) → length (after_boundary s o) ≤ length s
unfolding after_boundary
length-after_boundary s none = omega arith
length-after_boundary s (some zero) = omega arith
length-after_boundary s (some (suc n)) =
    omega (arith, length-lstrip (drop (suc n) s), length-drop (suc n) s)

length-tail : (s : Text) (chars : ℕ) → 0 < chars → length (tail s chars) ≤ chars
unfolding tail
length-tail s chars h =
    if_cases (λ (t : Text). length t ≤ chars) (leb (length s) chars) [] _ (λ _. omega arith)
      (λ _. omega (
        arith,
        length-last_chars chars s h,
        length-lstrip (last_chars chars s),
        length-after_boundary (lstrip (last_chars chars s))
            (find_space (lstrip (last_chars chars s))),
      ))

length-add_paragraph :
    (current paragraph : Text)
    → length (add_paragraph current paragraph) ≤ length current + 2 + length paragraph
unfolding add_paragraph
length-add_paragraph [] paragraph = omega arith
length-add_paragraph (c ∷ s) paragraph =
    omega (arith, length-append (s ++ blank_line) paragraph, length-append s blank_line)

fill_pieces-Fits :
    (budget : ℕ) (current : Text) (rest : List Text)
    → (is_empty current ≡ false → Fits budget current)
    → All IsWord rest
    → All (Fits budget) (fill_pieces budget current rest)
unfolding fill_pieces
fill_pieces-Fits budget current [] h ws = All-flush (Fits budget) current [] h tt
fill_pieces-Fits budget current (word ∷ rest) h ws =
    elim_cases (All (Fits budget))
      (not (is_empty current) && ltb budget (length current + 1 + length word))
      (current ∷ fill_pieces budget word rest)
      (fill_pieces budget (if is_empty current then word else current ++ blank ++ word) rest)
      (λ e. (h (open_piece current _ e), fill_pieces-Fits budget word rest (λ _. inr ws.0) ws.1))
      (λ e.
        fill_pieces-Fits budget (if is_empty current then word else current ++ blank ++ word) rest
          (λ _. longer current e) ws.1)
  where
    open_piece : (s : Text) (b : Bool) → not (is_empty s) && b ≡ true → is_empty s ≡ false
    open_piece s b e = ground arith

    longer :
        (s : Text)
        → not (is_empty s) && ltb budget (length s + 1 + length word) ≡ false
        → Fits budget (if is_empty s then word else s ++ blank ++ word)
    longer [] e = inr ws.0
    longer (c ∷ s) e =
        inl (ground (arith, e, length-append (s ++ blank) word, length-append s blank))

hard_split-Fits : (s : Text) (budget : ℕ) → All (Fits budget) (hard_split s budget)
unfolding hard_split
hard_split-Fits s budget = fill_pieces-Fits budget [] (words s) (λ e. cc) (words-IsWord s)

Fits-≤ : (m n : ℕ) (s : Text) → m ≤ n → Fits m s → Fits n s
Fits-≤ m n s h (inl k) = inl (omega (arith, h, k))
Fits-≤ m n s h (inr w) = inr w

module _ (budget overlap_chars : ℕ) (some_overlap : 0 < overlap_chars) where
  abbrev limit : ℕ
  limit = overlap_chars + 2 + budget

  pack-Fits :
      (current : Text) (rest : List Text)
      → length current ≤ limit
      → All (Fits limit) (pack budget overlap_chars current rest)
  unfolding pack
  pack-Fits current [] h = All-flush (Fits limit) current [] (λ _. inl h) tt
  pack-Fits current (paragraph ∷ rest) h =
      elim_cases (All (Fits limit)) (ltb budget (length paragraph)) _ _
        (λ _.
          All-flush (Fits limit) current _ (λ _. inl h)
            (All-append (Fits limit) (hard_split paragraph budget) _
              (All-imp (hard_split paragraph budget) (λ s. Fits-≤ budget limit s (omega arith))
                (hard_split-Fits paragraph budget))
              (pack-Fits [] rest (omega arith))))
        (λ short.
          elim_cases (All (Fits limit))
            (not (is_empty current) && ltb budget (length current + 2 + length paragraph)) _ _
            (λ _. (
              inl h,
              pack-Fits (add_paragraph (tail current overlap_chars) paragraph) rest (
                  ground (
                    arith,
                    short,
                    length-tail current overlap_chars some_overlap,
                    length-add_paragraph (tail current overlap_chars) paragraph,
                  )),
            ))
            (λ e.
              pack-Fits (add_paragraph current paragraph) rest (within current paragraph short e)))
    where
      within :
          (s p : Text)
          → ltb budget (length p) ≡ false
          → not (is_empty s) && ltb budget (length s + 2 + length p) ≡ false
          → length (add_paragraph s p) ≤ limit
      within [] p short e = unfold add_paragraph in ground (arith, short)
      within (c ∷ s) p short e = ground (arith, e, length-add_paragraph (c ∷ s) p)

-- If the overlap is not zero, then no chunk of a text is longer than the budget, the overlap and the
-- blank line between two paragraphs together, in characters, unless it is a single word.
pub split_text-Fits :
    (s : Text) (max_tokens overlap : ℕ)
    → 0 < overlap
    → All (Fits (overlap * 4 + 2 + max_tokens * 4)) (split_text s max_tokens overlap)
unfolding split_text
split_text-Fits s max_tokens overlap h =
    All-filterb_of _ has_text (pack (max_tokens * 4) (overlap * 4) [] (paragraphs_of s)) (
      pack-Fits (max_tokens * 4) (overlap * 4) (omega (arith, h)) [] (paragraphs_of s)
        (omega arith))
