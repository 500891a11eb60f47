-- ===== src/Chunk/Size/Parts.antt =====
-- The chunks of the size strategy: each within the budget, and together all of the text.
use Prim.Native.Char.{Char}
use alvis.Base.{
  ℕ, ◌+◌, ◌-◌, ◌≤◌, ◌<◌, ◌≡◌, refl, ap, sym, ◌∙◌, inl, inr, max, true, false, some, List, [], ◌∷◌,
  map, arith,
}
use alvis.Base.{
  leb, if_cases, filterb, length, take, All, All-imp, All-map, All-zip, All-filterb, All-filterb_of,
  Any, Any-filterb,
}
use alvis.Text.{Text, is_space, is_char, has_text, slice}
use alvis.Text.Slices.{item_at, item_at-slice, item_at-has_text, length-slice}
use alvis.Chunk.Size.{is_blank, slices_from, split_by_chars}
use alvis.Chunk.Size.Coverage.{At, item_at-<, slices_from_more, slices_from-At, slices_from-size}

is_blank-is_space : (c : Char) → is_space c ≡ false → is_blank c ≡ false
unfolding is_space is_blank is_char
is_blank-is_space c h = ground (arith, h)

-- A slice of the text that holds the position.
abbrev pub Holds : Text → ℕ → Text → Type 0
Holds s i part = (start : ℕ) × (end : ℕ) × (start ≤ i) × (i < end) × (part ≡ slice start end s)

Holds-has_text :
    (s : Text) (i : ℕ) (c : Char) (part : Text)
    → item_at i s ≡ some c
    → is_space c ≡ false
    → Holds s i part
    → has_text part ≡ true
Holds-has_text s i c part e k (start, end, h, l, same) =
    item_at-has_text (i - start) part c
      (ap (item_at (i - start)) same ∙ item_at-slice start end i s h l ∙ e) k

Any-slices :
    (s : Text) (i : ℕ) (ts : List (ℕ × ℕ))
    → Any (At i) ts
    → Any (Holds s i) (map (λ (t : ℕ × ℕ). slice t.0 t.1 s) ts)
Any-slices s i [] h = absurd h
Any-slices s i (t ∷ ts) (inl h) = inl (t.0, t.1, h.0, h.1, refl)
Any-slices s i (t ∷ ts) (inr h) = inr (Any-slices s i ts h)

whole : (s : Text) → slice 0 (length s) s ≡ s
whole s = ap (λ n. take n s) (omega arith) ∙ take_all s
  where
    take_all : (s : Text) → take (length s) s ≡ s
    take_all [] = refl
    take_all (c ∷ s) = ap (λ t. c ∷ t) (take_all s)

-- Each character of a text that is no space is in a chunk of the text that is a slice around it, and the
-- loop ends within as many rounds as the text has characters: further rounds give the same slices.
pub split_by_chars-Holds :
    (s : Text) (max_chars overlap_chars more i : ℕ) (c : Char)
    → item_at i s ≡ some c
    → is_space c ≡ false
    → Any (Holds s i) (split_by_chars s max_chars overlap_chars)
      × (slices_from (length s + more) s (max 1 max_chars) overlap_chars 0
          ≡ slices_from (length s) s (max 1 max_chars) overlap_chars 0)
unfolding split_by_chars
split_by_chars-Holds s max_chars overlap_chars more i c e k =
    let size = max 1 max_chars in
    let slices = slices_from (length s) s size overlap_chars 0 in
    (
      if_cases (Any (Holds s i)) (leb (length s) size) _ _
          (λ _.
            rw (item_at-has_text i s c e k)
              (inl (0, length s, omega arith, item_at-< i s c e, sym (whole s))))
          (λ _.
            Any-filterb (Holds s i) has_text (map (λ (t : ℕ × ℕ). slice t.0 t.1 s) slices)
              (λ part. Holds-has_text s i c part e k)
              (Any-slices s i slices (
                slices_from-At s size overlap_chars (omega arith) (length s) 0 i c (omega arith)
                  (omega arith) e (is_blank-is_space c k)))),
      slices_from_more s size overlap_chars (omega arith) more,
    )

-- No chunk of a text is longer than the budget, which counts as 1 if it is 0, and each has more than
-- spaces.
pub split_by_chars-bounds :
    (s : Text) (max_chars overlap_chars : ℕ)
    → All
        (λ part. (length part ≤ max 1 max_chars) × (has_text part ≡ true))
        (split_by_chars s max_chars overlap_chars)
unfolding split_by_chars
split_by_chars-bounds s max_chars overlap_chars =
    let size = max 1 max_chars in
    let slices = slices_from (length s) s size overlap_chars 0 in
    let parts = map (λ (t : ℕ × ℕ). slice t.0 t.1 s) slices in
    if_cases Good (leb (length s) size) _ _
      (λ short.
        if_cases Good (has_text s) (s ∷ []) [] (λ e. ((ground (arith, short), e), tt)) (λ _. tt))
      (λ _.
        All-zip (filterb has_text parts) (λ part h e. (h, e))
          (All-filterb_of _ has_text parts (
            All-map _ (λ (t : ℕ × ℕ). slice t.0 t.1 s) slices
              (All-imp slices (λ t h. omega (arith, h, length-slice t.0 t.1 s))
                (slices_from-size s size overlap_chars (omega arith) (length s) 0))))
          (All-filterb has_text parts))
  where
    Good : List Text → Type 0
    Good parts = All (λ part. (length part ≤ max 1 max_chars) × (has_text part ≡ true)) parts
