-- ===== src/Base/Lists.antt =====
-- Lists measured by native numbers, filtered by Boolean tests, and predicates on their elements.
use Prim.Native.Nat.{ℕ, zero, suc, ◌+◌, ◌≤◌, min}
use mathlib.Core.Path.{◌≡◌, refl, ap}
use mathlib.Core.Bool.{Bool, true, ◌&&◌}
use mathlib.Core.List.{List, [], ◌∷◌, ◌++◌, map}
use native.Mathlib.Omega.{arith}
use mathlib.Core.Logic.{◌⊎◌, inl, inr}
use alvis.Base.Tests.{if◌then◌else◌, Bool-cases, if_cases}

module _ {ℓ} {A : Type ℓ} where
  abbrev pub length : List A → ℕ
  length [] = 0
  length (x ∷ xs) = suc (length xs)

  -- `xs[:n]`
  abbrev pub take : ℕ → List A → List A
  take zero xs = []
  take (suc n) [] = []
  take (suc n) (x ∷ xs) = x ∷ take n xs

  abbrev pub drop : ℕ → List A → List A
  drop zero xs = xs
  drop (suc n) [] = []
  drop (suc n) (x ∷ xs) = drop n xs

  -- `[x for x in xs if keep(x)]`
  abbrev pub filterb : (A → Bool) → List A → List A
  filterb keep [] = []
  filterb keep (x ∷ xs) = let rest = filterb keep xs in if keep x then x ∷ rest else rest

  -- `sum(1 for x in xs if test(x))`
  abbrev pub countb : (A → Bool) → List A → ℕ
  countb test [] = 0
  countb test (x ∷ xs) = (if test x then 1 else 0) + countb test xs

  -- `all(test(x) for x in xs)`
  abbrev pub allb : (A → Bool) → List A → Bool
  allb test [] = true
  allb test (x ∷ xs) = test x && allb test xs

  abbrev pub All {κ} : (A → Type κ) → List A → Type κ
  All P [] = Unit
  All P (x ∷ xs) = P x × All P xs

  abbrev pub Any : (A → Type 0) → List A → Type 0
  Any P [] = ⊥
  Any P (x ∷ xs) = P x ⊎ Any P xs

module _ {ℓ} {A : Type ℓ} where
  pub length-append : (xs ys : List A) → length (xs ++ ys) ≡ length xs + length ys
  length-append [] ys = omega arith
  length-append (x ∷ xs) ys = omega (arith, length-append xs ys)

  pub length-map {κ} : {B : Type κ} (f : A → B) (xs : List A) → length (map f xs) ≡ length xs
  length-map f [] = refl
  length-map f (x ∷ xs) = ap suc (length-map f xs)

  pub length-take : (n : ℕ) (xs : List A) → length (take n xs) ≡ min n (length xs)
  length-take zero xs = omega arith
  length-take (suc n) [] = omega arith
  length-take (suc n) (x ∷ xs) = omega (arith, length-take n xs)

  pub length-filterb : (keep : A → Bool) (xs : List A) → length (filterb keep xs) ≤ length xs
  length-filterb keep [] = omega arith
  length-filterb keep (x ∷ xs) = ground (arith, length-filterb keep xs)

  pub All-filterb : (keep : A → Bool) (xs : List A) → All (λ x. keep x ≡ true) (filterb keep xs)
  All-filterb keep [] = tt
  All-filterb keep (x ∷ xs) = ground (arith, All-filterb keep xs)

  pub All-filterb_of {κ} :
      (P : A → Type κ) (keep : A → Bool) (xs : List A) → All P xs → All P (filterb keep xs)
  All-filterb_of P keep [] h = tt
  All-filterb_of P keep (x ∷ xs) h = elim (Bool-cases (keep x)) [
    | inl e ↦ rw e (h.0, All-filterb_of P keep xs h.1)
    | inr e ↦ rw e (All-filterb_of P keep xs h.1)
  ]

  -- To drop first what the second test of a filter drops changes nothing.
  pub filterb-filterb :
      (f g : A → Bool) (xs : List A)
      → filterb (λ x. f x && g x) (filterb g xs) ≡ filterb (λ x. f x && g x) xs
  filterb-filterb f g [] = refl
  filterb-filterb f g (x ∷ xs) = ground (arith, filterb-filterb f g xs)

  pub take-append-drop : (n : ℕ) (xs : List A) → take n xs ++ drop n xs ≡ xs
  take-append-drop zero xs = refl
  take-append-drop (suc n) [] = refl
  take-append-drop (suc n) (x ∷ xs) = ap (λ ys. x ∷ ys) (take-append-drop n xs)

  pub All-drop {κ} : (P : A → Type κ) (n : ℕ) (xs : List A) → All P xs → All P (drop n xs)
  All-drop P zero xs h = h
  All-drop P (suc n) [] h = tt
  All-drop P (suc n) (x ∷ xs) h = All-drop P n xs h.1

  pub All-take {κ} : (P : A → Type κ) (n : ℕ) (xs : List A) → All P xs → All P (take n xs)
  All-take P zero xs h = tt
  All-take P (suc n) [] h = tt
  All-take P (suc n) (x ∷ xs) h = (h.0, All-take P n xs h.1)

  pub All-append {κ} : (P : A → Type κ) (xs ys : List A) → All P xs → All P ys → All P (xs ++ ys)
  All-append P [] ys h k = k
  All-append P (x ∷ xs) ys h k = (h.0, All-append P xs ys h.1 k)

  pub All-imp {κ μ} :
      {P : A → Type κ} {Q : A → Type μ} (xs : List A) → ((x : A) → P x → Q x) → All P xs → All Q xs
  All-imp [] f h = tt
  All-imp (x ∷ xs) f h = (f x h.0, All-imp xs f h.1)

  pub All-zip {κ μ ν} :
      {P : A → Type κ} {Q : A → Type μ} {R : A → Type ν}
      → (xs : List A) → ((x : A) → P x → Q x → R x)
      → All P xs
      → All Q xs
      → All R xs
  All-zip [] f ps qs = tt
  All-zip (x ∷ xs) f ps qs = (f x ps.0 qs.0, All-zip xs f ps.1 qs.1)

  pub Any-append : (P : A → Type 0) (xs ys : List A) → Any P xs → Any P (xs ++ ys)
  Any-append P [] ys h = absurd h
  Any-append P (x ∷ xs) ys (inl h) = inl h
  Any-append P (x ∷ xs) ys (inr h) = inr (Any-append P xs ys h)

  pub Any-append_right : (P : A → Type 0) (xs ys : List A) → Any P ys → Any P (xs ++ ys)
  Any-append_right P [] ys h = h
  Any-append_right P (x ∷ xs) ys h = inr (Any-append_right P xs ys h)

  -- Elements that pass the test of a filter are kept.
  pub Any-filterb :
      (P : A → Type 0) (keep : A → Bool) (xs : List A)
      → ((x : A) → P x → keep x ≡ true)
      → Any P xs
      → Any P (filterb keep xs)
  Any-filterb P keep [] f h = absurd h
  Any-filterb P keep (x ∷ xs) f (inl h) = rw (f x h) (inl h)
  Any-filterb P keep (x ∷ xs) f (inr h) =
      if_cases (Any P) (keep x) (x ∷ filterb keep xs) (filterb keep xs)
        (λ _. inr (Any-filterb P keep xs f h)) (λ _. Any-filterb P keep xs f h)

  pub filterb-All :
      (keep : A → Bool) (xs : List A) → All (λ x. keep x ≡ true) xs → filterb keep xs ≡ xs
  filterb-All keep [] h = refl
  filterb-All keep (x ∷ xs) h = ground (arith, filterb-All keep xs h.1)

pub All-map {ℓ κ μ} :
    {A : Type ℓ} {B : Type κ} (P : B → Type μ) (f : A → B) (xs : List A)
    → All (λ x. P (f x)) xs
    → All P (map f xs)
All-map P f [] h = tt
All-map P f (x ∷ xs) h = (h.0, All-map P f xs h.1)

pub All-of_map {ℓ κ μ} :
    {A : Type ℓ} {B : Type κ} (P : B → Type μ) (f : A → B) (xs : List A)
    → All P (map f xs)
    → All (λ x. P (f x)) xs
All-of_map P f [] h = tt
All-of_map P f (x ∷ xs) h = (h.0, All-of_map P f xs h.1)

pub map-take-map {ℓ κ μ} :
    {A : Type ℓ} {B : Type κ} {C : Type μ} (g : B → C) (f : A → B) (n : ℕ) (xs : List A)
    → map g (take n (map f xs)) ≡ map (λ x. g (f x)) (take n xs)
map-take-map g f zero xs = refl
map-take-map g f (suc n) [] = refl
map-take-map g f (suc n) (x ∷ xs) = ap (λ r. g (f x) ∷ r) (map-take-map g f n xs)

pub map-map {ℓ κ μ} :
    {A : Type ℓ} {B : Type κ} {C : Type μ} (g : B → C) (f : A → B) (xs : List A)
    → map g (map f xs) ≡ map (λ x. g (f x)) xs
map-map g f [] = refl
map-map g f (x ∷ xs) = ap (λ r. g (f x) ∷ r) (map-map g f xs)
