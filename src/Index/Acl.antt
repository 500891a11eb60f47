-- ===== src/Index/Acl.antt =====
-- index/_acl.py: which points an identity may see.
use alvis.Base.{
  ◌↔◌, ◌⊎◌, inl, inr, Bool-cases, ==_refl, String, ◌≡◌, refl, Bool, true, false, ◌||◌, Option, none,
  some, List, [], ◌∷◌, arith,
}
use alvis.Base.{string_eq, contains}
use alvis.Base.Dict.{lookup}
use alvis.Value.{Value, Items, nil, cons, seq, str}
use alvis.Models.{Metadata}

-- `{str(p) for p in acl}`
acl_texts : (Value → String) → Items → List String
acl_texts repr nil = []
acl_texts repr (cons v xs) = str repr v ∷ acl_texts repr xs

-- `bool(xs & ys)`
intersects : List String → List String → Bool
intersects [] ys = false
intersects (x ∷ xs) ys = contains x ys || intersects xs ys

-- A list that is empty, and a value that is no list, restrict nothing.
acl_allows : (Value → String) → Option Value → List String → Bool
unfolding acl_texts intersects
acl_allows repr (some (seq (cons v xs))) principals =
    intersects (acl_texts repr (cons v xs)) principals
acl_allows repr _ principals = true

unfoldable pub acl_visible : (Value → String) → Metadata → Option (List String) → Bool
unfolding acl_allows lookup
acl_visible repr metadata none = true
acl_visible repr metadata (some principals) = acl_allows repr (lookup "acl" metadata) principals

-- The principals that the metadata lists; none where there is no list.
acl_list : (Value → String) → Option Value → List String
unfolding acl_texts
acl_list repr (some (seq xs)) = acl_texts repr xs
acl_list repr _ = []

unfoldable pub acl_of : (Value → String) → Metadata → List String
unfolding acl_list lookup
acl_of repr metadata = acl_list repr (lookup "acl" metadata)

intersects→shared :
    (xs ys : List String)
    → intersects xs ys ≡ true
    → (a : String) × (contains a xs ≡ true) × (contains a ys ≡ true)
unfolding intersects
intersects→shared [] ys h = cc
intersects→shared (x ∷ xs) ys h = elim (Bool-cases (contains x ys)) [
  | inl e ↦ (x, ground (arith, ==_refl x), e)
  | inr e ↦ let (a, p, q) = intersects→shared xs ys (ground arith) in (a, ground arith, q)
]

shared→intersects :
    (a : String) (xs ys : List String)
    → contains a xs ≡ true
    → contains a ys ≡ true
    → intersects xs ys ≡ true
unfolding intersects
shared→intersects a [] ys p q = cc
shared→intersects a (x ∷ xs) ys p q = ground (arith, shared→intersects a xs ys)

module _ (repr : Value → String) (principals : List String) where
  acl_allows_iff :
      (v : Option Value)
      → (acl_allows repr v principals ≡ true) ↔ (
          (acl_list repr v ≡ [])
          ⊎ ((a : String) × (contains a (acl_list repr v) ≡ true) × (contains a principals ≡ true)))
  unfolding acl_allows acl_list
  acl_allows_iff (some (seq (cons v xs))) = (
    λ h. inr (intersects→shared (acl_texts repr (cons v xs)) principals h),
    elim [
      | inl e ↦ cc
      | inr t ↦ shared→intersects t.0 (acl_texts repr (cons v xs)) principals t.1 t.2
    ],
  )
  acl_allows_iff (some (seq nil)) = (λ h. inl refl, λ h. refl)
  acl_allows_iff _ = (λ h. inl refl, λ h. refl)

-- With an identity given, a point is visible exactly if its metadata lists no principal or some
-- principal that it lists belongs to the identity.
pub acl_visible_iff :
    (repr : Value → String) (metadata : Metadata) (principals : List String)
    → (acl_visible repr metadata (some principals) ≡ true) ↔ (
        (acl_of repr metadata ≡ [])
        ⊎ ((a : String) × (contains a (acl_of repr metadata) ≡ true)
            × (contains a principals ≡ true)))
unfolding acl_visible acl_of
acl_visible_iff repr metadata principals = acl_allows_iff repr principals (lookup "acl" metadata)
