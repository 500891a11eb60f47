-- ===== src/Text/Slices.antt =====
-- The characters of a slice by their positions.
use Prim.Native.Char.{Char}
use alvis.Base.{
  ℕ, zero, suc, ◌+◌, ◌-◌, ◌≤◌, ◌<◌, ◌≡◌, refl, ap, ◌∙◌, true, false, Option, none, some, List, [],
  ◌∷◌, arith,
}
use alvis.Base.{length, drop, take, length-take}
use alvis.Text.{Text, is_space, has_text, slice}

-- `s[i]`
abbrev pub item_at {ℓ} : {A : Type ℓ} → ℕ → List A → Option A
item_at i [] = none
item_at zero (x ∷ xs) = some x
item_at (suc i) (x ∷ xs) = item_at i xs

pub item_at-take {ℓ} :
    {A : Type ℓ} (i n : ℕ) (xs : List A) → i < n → item_at i (take n xs) ≡ item_at i xs
item_at-take i zero xs h = absurd (omega (arith, h))
item_at-take i (suc n) [] h = refl
item_at-take zero (suc n) (x ∷ xs) h = refl
item_at-take (suc i) (suc n) (x ∷ xs) h = item_at-take i n xs (omega (arith, h))

pub item_at-drop {ℓ} :
    {A : Type ℓ} (i n : ℕ) (xs : List A) → item_at i (drop n xs) ≡ item_at (n + i) xs
item_at-drop i zero xs = ap (λ j. item_at j xs) (omega arith)
item_at-drop i (suc n) [] = refl
item_at-drop i (suc n) (x ∷ xs) = item_at-drop i n xs ∙ ap (λ j. item_at j (x ∷ xs)) (the_sum n i)
  where
    the_sum : (n i : ℕ) → suc (n + i) ≡ suc n + i
    the_sum n i = omega arith

pub item_at-slice :
    (start end i : ℕ) (s : Text)
    → start ≤ i
    → i < end
    → item_at (i - start) (slice start end s) ≡ item_at i s
item_at-slice start end i s h k =
    item_at-take (i - start) (end - start) (drop start s) (omega (arith, h, k))
    ∙ item_at-drop (i - start) start s
    ∙ ap (λ j. item_at j s) (omega (arith, h))

pub item_at-has_text :
    (i : ℕ) (s : Text) (c : Char) → item_at i s ≡ some c → is_space c ≡ false → has_text s ≡ true
unfolding has_text
item_at-has_text i [] c e h = cc
item_at-has_text zero (d ∷ s) c e h = ground arith
item_at-has_text (suc i) (d ∷ s) c e h = ground (arith, item_at-has_text i s c e h)

pub length-slice : (start end : ℕ) (s : Text) → length (slice start end s) ≤ end - start
length-slice start end s = omega (arith, length-take (end - start) (drop start s))
