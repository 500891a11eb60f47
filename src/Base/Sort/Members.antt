-- ===== src/Base/Sort/Members.antt =====
-- Sorting keeps what a list contains.
use mathlib.Core.Path.{◌≡◌, refl}
use mathlib.Core.Bool.{Bool}
use mathlib.Core.List.{List, [], ◌∷◌}
use native.Mathlib.Omega.{arith}
use alvis.Base.Equality.{Eq, contains}
use alvis.Base.Sort.{insert_desc, sort_desc}

module _ {ℓ κ} {A : Type ℓ} {F : Type κ} ⦃e : Eq A⦄ (lt : F → F → Bool) (key : A → F) where
  contains-insert_desc :
      (a x : A) (ys : List A) → contains a (insert_desc lt key x ys) ≡ contains a (x ∷ ys)
  unfolding insert_desc
  contains-insert_desc a x [] = refl
  contains-insert_desc a x (y ∷ ys) = ground (arith, contains-insert_desc a x ys)

  pub contains-sort_desc : (a : A) (xs : List A) → contains a (sort_desc lt key xs) ≡ contains a xs
  unfolding sort_desc
  contains-sort_desc a [] = refl
  contains-sort_desc a (x ∷ xs) =
      ground (arith, contains-insert_desc a x (sort_desc lt key xs), contains-sort_desc a xs)
