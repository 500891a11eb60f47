-- ===== src/Text/Words.antt =====
-- What the words of a text and its stripped forms have in common.
use alvis.Base.{ℕ, zero, suc, ◌-◌, ◌≤◌, ◌<◌, ◌≡◌, refl, false, List, [], ◌∷◌, ◌++◌, arith}
use alvis.Base.{elim_cases, length, drop, All, All-append}
use alvis.Text.{Text, is_space, is_empty, lstrip, flush, words, words_after, last_chars}

-- A word has characters, and none of them is a space.
abbrev pub IsWord : Text → Type 0
IsWord s = (is_empty s ≡ false) × All (λ c. is_space c ≡ false) s

pub All-flush {κ} :
    (P : Text → Type κ) (s : Text) (parts : List Text)
    → (is_empty s ≡ false → P s)
    → All P parts
    → All P (flush s parts)
All-flush P [] parts p h = h
All-flush P (c ∷ s) parts p h = (p refl, h)

words_after-IsWord :
    (word s : Text) → All (λ c. is_space c ≡ false) word → All IsWord (words_after word s)
unfolding words_after
words_after-IsWord word [] h = All-flush IsWord word [] (λ e. (e, h)) tt
words_after-IsWord word (c ∷ s) h =
    elim_cases (All IsWord) (is_space c) (flush word (words_after [] s))
      (words_after (word ++ c ∷ []) s)
      (λ _. All-flush IsWord word _ (λ e. (e, h)) (words_after-IsWord [] s tt))
      (λ e. words_after-IsWord (word ++ c ∷ []) s (All-append _ word (c ∷ []) h (e, tt)))

pub words-IsWord : (s : Text) → All IsWord (words s)
unfolding words
words-IsWord s = words_after-IsWord [] s tt

pub length-lstrip : (s : Text) → length (lstrip s) ≤ length s
unfolding lstrip
length-lstrip [] = omega arith
length-lstrip (c ∷ s) = ground (arith, length-lstrip s)

pub length-drop {ℓ} : {A : Type ℓ} (n : ℕ) (xs : List A) → length (drop n xs) ≡ length xs - n
length-drop zero xs = omega arith
length-drop (suc n) [] = omega arith
length-drop (suc n) (x ∷ xs) = omega (arith, length-drop n xs)

pub length-last_chars : (n : ℕ) (s : Text) → 0 < n → length (last_chars n s) ≤ n
unfolding last_chars
length-last_chars zero s h = absurd (omega (arith, h))
length-last_chars (suc n) s h = omega (arith, length-drop (length s - suc n) s)
