-- ===== src/Base/Sort.antt =====
-- `sorted(xs, key=key, reverse=True)`: the larger key first, equal keys in their old order.
pub mod Entries
pub mod Members
use Prim.Native.Nat.{ℕ, zero, suc, ◌+◌}
use mathlib.Core.Path.{◌≡◌, refl, ap, ◌∙◌}
use mathlib.Core.Logic.{inl, inr}
use mathlib.Core.Bool.{Bool, true, false}
use mathlib.Core.List.{List, [], ◌∷◌, map, Perm}
use mathlib.Core.List.Perm
use native.Mathlib.Omega.{arith}
use alvis.Base.Tests.{if◌then◌else◌, Bool-cases}
use alvis.Base.Lists.{All, All-imp, All-take, All-drop, All-map, length, take, drop}

module _ {ℓ κ} {A : Type ℓ} {F : Type κ} (lt : F → F → Bool) (key : A → F) where
  insert_desc : A → List A → List A
  insert_desc x [] = x ∷ []
  insert_desc x (y ∷ ys) =
      let later = insert_desc x ys in if lt (key x) (key y) then y ∷ later else x ∷ y ∷ ys

  unfoldable pub sort_desc : List A → List A
  unfolding insert_desc
  sort_desc [] = []
  sort_desc (x ∷ xs) = insert_desc x (sort_desc xs)

  -- No later element has a larger key.
  abbrev pub IsSortedDesc : List A → Type 0
  IsSortedDesc [] = Unit
  IsSortedDesc (x ∷ xs) = All (λ y. lt (key x) (key y) ≡ false) xs × IsSortedDesc xs

  insert_desc-perm : (x : A) (ys : List A) → Perm (insert_desc x ys) (x ∷ ys)
  unfolding insert_desc
  insert_desc-perm x [] = Perm.refl _
  insert_desc-perm x (y ∷ ys) = elim (Bool-cases (lt (key x) (key y))) [
    | inl h ↦ rw h (Perm.trans (Perm.cons y (insert_desc-perm x ys)) (Perm.swap _ _ _))
    | inr h ↦ rw h (Perm.refl _)
  ]

  pub sort_desc-perm : (xs : List A) → Perm (sort_desc xs) xs
  unfolding sort_desc
  sort_desc-perm [] = Perm.refl _
  sort_desc-perm (x ∷ xs) =
      Perm.trans (insert_desc-perm x (sort_desc xs)) (Perm.cons x (sort_desc-perm xs))

  length-insert_desc : (x : A) (ys : List A) → length (insert_desc x ys) ≡ length ys + 1
  unfolding insert_desc
  length-insert_desc x [] = refl
  length-insert_desc x (y ∷ ys) = ground (arith, length-insert_desc x ys)

  pub length-sort_desc : (xs : List A) → length (sort_desc xs) ≡ length xs
  unfolding sort_desc
  length-sort_desc [] = refl
  length-sort_desc (x ∷ xs) =
      omega (arith, length-insert_desc x (sort_desc xs), length-sort_desc xs)

  All-insert_desc {μ} :
      (P : A → Type μ) (x : A) (ys : List A) → P x → All P ys → All P (insert_desc x ys)
  unfolding insert_desc
  All-insert_desc P x [] p h = (p, tt)
  All-insert_desc P x (y ∷ ys) p h = elim (Bool-cases (lt (key x) (key y))) [
    | inl e ↦ rw e (h.0, All-insert_desc P x ys p h.1)
    | inr e ↦ rw e (p, h)
  ]

  pub All-sort_desc {μ} : (P : A → Type μ) (xs : List A) → All P xs → All P (sort_desc xs)
  unfolding sort_desc
  All-sort_desc P [] h = tt
  All-sort_desc P (x ∷ xs) h = All-insert_desc P x (sort_desc xs) h.0 (All-sort_desc P xs h.1)

  pub IsSortedDesc-take : (n : ℕ) (xs : List A) → IsSortedDesc xs → IsSortedDesc (take n xs)
  IsSortedDesc-take zero xs h = tt
  IsSortedDesc-take (suc n) [] h = tt
  IsSortedDesc-take (suc n) (x ∷ xs) h = (All-take _ n xs h.0, IsSortedDesc-take n xs h.1)

  -- What is left out of a sorted list has no larger key than what is taken.
  pub IsSortedDesc-drop :
      (n : ℕ) (xs : List A)
      → IsSortedDesc xs
      → All (λ x. All (λ y. lt (key x) (key y) ≡ false) (drop n xs)) (take n xs)
  IsSortedDesc-drop zero xs h = tt
  IsSortedDesc-drop (suc n) [] h = tt
  IsSortedDesc-drop (suc n) (x ∷ xs) h = (All-drop _ n xs h.0, IsSortedDesc-drop n xs h.1)

-- What comparison of keys is relied on to be: floats without NaN have both.
pub record IsStrictWeak {κ} {F : Type κ} (lt : F → F → Bool) : Type κ where
  pub asym : (a b : F) → lt a b ≡ true → lt b a ≡ false
  pub through : (a b c : F) → lt a b ≡ false → lt b c ≡ false → lt a c ≡ false

module _ {ℓ κ} {A : Type ℓ} {F : Type κ} (lt : F → F → Bool) (key : A → F)
    (order : IsStrictWeak lt) where
  insert_desc-IsSortedDesc :
      (x : A) (ys : List A) → IsSortedDesc lt key ys → IsSortedDesc lt key (insert_desc lt key x ys)
  unfolding insert_desc
  insert_desc-IsSortedDesc x [] h = (tt, tt)
  insert_desc-IsSortedDesc x (y ∷ ys) (below, h) = elim (Bool-cases (lt (key x) (key y))) [
    | inl e ↦ rw e (
      All-insert_desc lt key (λ z. lt (key y) (key z) ≡ false) x ys (order.asym _ _ e) below,
      insert_desc-IsSortedDesc x ys h,
    )
    | inr e ↦ rw e ((e, All-imp ys (λ z k. order.through _ _ _ e k) below), (below, h))
  ]

  pub sort_desc-IsSortedDesc : (xs : List A) → IsSortedDesc lt key (sort_desc lt key xs)
  unfolding sort_desc
  sort_desc-IsSortedDesc [] = tt
  sort_desc-IsSortedDesc (x ∷ xs) =
      insert_desc-IsSortedDesc x (sort_desc lt key xs) (sort_desc-IsSortedDesc xs)

  -- Sorting a sorted list changes nothing.
  pub sort_desc_sorted : (xs : List A) → IsSortedDesc lt key xs → sort_desc lt key xs ≡ xs
  unfolding sort_desc insert_desc
  sort_desc_sorted [] h = refl
  sort_desc_sorted (x ∷ []) h = refl
  sort_desc_sorted (x ∷ y ∷ ys) h =
      ap (insert_desc lt key x) (sort_desc_sorted (y ∷ ys) h.1) ∙ rw (h.0.0)

-- A map under which keys keep their order keeps a list sorted.
pub IsSortedDesc-map {ℓ κ μ} :
    {A : Type ℓ} {B : Type κ} {F : Type μ} (lt : F → F → Bool) (key : A → F) (key' : B → F)
    → (f : A → B) → ((x y : A) → lt (key x) (key y) ≡ false → lt (key' (f x)) (key' (f y)) ≡ false)
    → (xs : List A) → IsSortedDesc lt key xs
    → IsSortedDesc lt key' (map f xs)
IsSortedDesc-map lt key key' f mono [] h = tt
IsSortedDesc-map lt key key' f mono (x ∷ xs) h =
    (All-map _ f xs (All-imp xs (λ y. mono x y) h.0), IsSortedDesc-map lt key key' f mono xs h.1)

module _ {ℓ κ μ} {A : Type ℓ} {F : Type κ} (lt : F → F → Bool) (key : A → F) (P : A → Type μ) where
  All-of_insert_desc : (x : A) (ys : List A) → All P (insert_desc lt key x ys) → P x × All P ys
  unfolding insert_desc
  All-of_insert_desc x [] h = (h.0, tt)
  All-of_insert_desc x (y ∷ ys) h = inserted (All-of_insert_desc x ys) (lt (key x) (key y)) h
    where
      inserted :
          (All P (insert_desc lt key x ys) → P x × All P ys)
          → (later : Bool) → All P (if later then y ∷ insert_desc lt key x ys else x ∷ y ∷ ys)
          → P x × All P (y ∷ ys)
      inserted go true h = let (p, q) = go h.1 in (p, (h.0, q))
      inserted go false h = (h.0, h.1)

  -- What all elements of the sorted list have, all elements have.
  pub All-of_sort_desc : (xs : List A) → All P (sort_desc lt key xs) → All P xs
  unfolding sort_desc
  All-of_sort_desc [] h = tt
  All-of_sort_desc (x ∷ xs) h =
      let (p, q) = All-of_insert_desc x (sort_desc lt key xs) h in (p, All-of_sort_desc xs q)

-- To sort a list that is mapped by what keeps the keys is to map the sorted list.
module _ {ℓ κ μ} {A : Type ℓ} {B : Type κ} {F : Type μ} (lt : F → F → Bool) (key : A → F)
    (key' : B → F) (f : A → B) where
  insert_desc-map :
      (x : A) (ys : List A)
      → key' (f x) ≡ key x
      → All (λ y. key' (f y) ≡ key y) ys
      → insert_desc lt key' (f x) (map f ys) ≡ map f (insert_desc lt key x ys)
  unfolding insert_desc
  insert_desc-map x [] e h = refl
  insert_desc-map x (y ∷ ys) e h = elim (Bool-cases (lt (key x) (key y))) [
    | inl b ↦ rw (e, h.0, b) (ap (λ r. f y ∷ r) (insert_desc-map x ys e h.1))
    | inr b ↦ rw (e, h.0, b) refl
  ]

  pub sort_desc-map :
      (xs : List A)
      → All (λ y. key' (f y) ≡ key y) xs
      → sort_desc lt key' (map f xs) ≡ map f (sort_desc lt key xs)
  unfolding sort_desc
  sort_desc-map [] h = refl
  sort_desc-map (x ∷ xs) (e, h) =
      ap (insert_desc lt key' (f x)) (sort_desc-map xs h)
      ∙ insert_desc-map x (sort_desc lt key xs) e
          (All-sort_desc lt key (λ y. key' (f y) ≡ key y) xs h)
