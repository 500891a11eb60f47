-- ===== src/Extract/Json/Leaves.antt =====
-- The sections of a flattened JSON value are exactly its scalars, each under the path that leads to it.
use alvis.Base.{String, ℕ, suc, ◌≡◌, refl, sym, inl, inr, ◌↔◌, true, false, List, [], ◌∷◌, ◌++◌}
use alvis.Base.{◌==◌, string_eq, Any}
use mathlib.Core.Bool.{false≢true}
use mathlib.Core.Path.{subst}
use alvis.Value.{Value, null, flag, num, text, seq, obj, Items, nil, cons, Fields, end, field}
use alvis.Models.{Section}
use alvis.Extract.Json.{body_of, section_at, add_scalar, flatten, flatten_items, flatten_fields}
use alvis.Extract.Json.Paths.{
  is_scalar, ItemAt, FieldIn, Reaches, leaf, element, member, IsLeaf, Holds, add_scalar-Holds,
  found,
}

module _ (repr : Value → String) (show : ℕ → String) where
  mutual
    unfolding flatten

    kept :
        (s : Section) (v : Value) (path : List String) (sections : List Section)
        → Holds s sections
        → Holds s (flatten repr show v path sections)
    kept s null path sections h = add_scalar-Holds repr show s null path sections (inl h)
    kept s (flag b) path sections h = add_scalar-Holds repr show s (flag b) path sections (inl h)
    kept s (num n) path sections h = add_scalar-Holds repr show s (num n) path sections (inl h)
    kept s (text t) path sections h = add_scalar-Holds repr show s (text t) path sections (inl h)
    kept s (seq xs) path sections h = kept_items s xs 0 path sections h
    kept s (obj fs) path sections h = kept_fields s fs path sections h

    kept_items :
        (s : Section) (xs : Items) (start : ℕ) (path : List String) (sections : List Section)
        → Holds s sections
        → Holds s (flatten_items repr show xs start path sections)
    kept_items s nil start path sections h = h
    kept_items s (cons v xs) start path sections h =
        kept_items s xs (suc start) path (flatten repr show v (path ++ show start ∷ []) sections)
          (kept s v (path ++ show start ∷ []) sections h)

    kept_fields :
        (s : Section) (fs : Fields) (path : List String) (sections : List Section)
        → Holds s sections
        → Holds s (flatten_fields repr show fs path sections)
    kept_fields s end path sections h = h
    kept_fields s (field key v fs) path sections h =
        kept_fields s fs path (flatten repr show v (path ++ key ∷ []) sections)
          (kept s v (path ++ key ∷ []) sections h)

  IsShown : Section → Value → List String → Type 0
  IsShown s l below = ((body_of repr show l == "") ≡ false) × (section_at repr show below l ≡ s)

  scalar_listed :
      (s : Section) (v : Value) (path : List String) (sections : List Section)
      → (l : Value) (below : List String) → is_scalar v ≡ true
      → Reaches repr show v path l below
      → IsShown s l below
      → Holds s (add_scalar repr show v path sections)
  unfolding IsShown
  scalar_listed s v path sections l below scalar (leaf h) shown =
      add_scalar-Holds repr show s v path sections (inr shown)
  scalar_listed s v path sections l below scalar (element index x at r) shown =
      absurd (false≢true scalar)
  scalar_listed s v path sections l below scalar (member key x at r) shown =
      absurd (false≢true scalar)

  mutual
    unfolding flatten

    listed :
        (s : Section) (v : Value) (path : List String) (sections : List Section)
        → (l : Value) (below : List String) → Reaches repr show v path l below
        → IsShown s l below
        → Holds s (flatten repr show v path sections)
    listed s null path sections l below r h = scalar_listed s null path sections l below refl r h
    listed s (flag b) path sections l below r h =
        scalar_listed s (flag b) path sections l below refl r h
    listed s (num n) path sections l below r h =
        scalar_listed s (num n) path sections l below refl r h
    listed s (text t) path sections l below r h =
        scalar_listed s (text t) path sections l below refl r h
    listed s (seq xs) path sections l below (leaf scalar) h = absurd (false≢true scalar)
    listed s (seq xs) path sections l below (element index x at r) h =
        listed_item s xs 0 path sections l below index x at r h
    listed s (obj fs) path sections l below (leaf scalar) h = absurd (false≢true scalar)
    listed s (obj fs) path sections l below (member key x at r) h =
        listed_field s fs path sections l below key x at r h

    listed_item :
        (s : Section) (xs : Items) (start : ℕ) (path : List String) (sections : List Section)
        → (l : Value) (below : List String) (index : ℕ) (x : Value) → ItemAt xs start index x
        → Reaches repr show x (path ++ show index ∷ []) l below
        → IsShown s l below
        → Holds s (flatten_items repr show xs start path sections)
    listed_item s nil start path sections l below index x at r h = absurd at
    listed_item s (cons v xs) start path sections l below index x (inr at) r h =
        listed_item s xs (suc start) path (flatten repr show v (path ++ show start ∷ []) sections) l
          below index x at r h
    listed_item s (cons v xs) start path sections l below index x (inl (here, same)) r h =
        kept_items s xs (suc start) path (flatten repr show v (path ++ show start ∷ []) sections) (
          listed s v (path ++ show start ∷ []) sections l below
            (subst (λ y. Reaches repr show y (path ++ show start ∷ []) l below) (sym same)
              (subst (λ n. Reaches repr show x (path ++ show n ∷ []) l below) (sym here) r))
            h)

    listed_field :
        (s : Section) (fs : Fields) (path : List String) (sections : List Section)
        → (l : Value) (below : List String) (key : String) (x : Value) → FieldIn fs key x
        → Reaches repr show x (path ++ key ∷ []) l below
        → IsShown s l below
        → Holds s (flatten_fields repr show fs path sections)
    listed_field s end path sections l below key x at r h = absurd at
    listed_field s (field k v fs) path sections l below key x (inr at) r h =
        listed_field s fs path (flatten repr show v (path ++ k ∷ []) sections) l below key x at r h
    listed_field s (field k v fs) path sections l below key x (inl (here, same)) r h =
        kept_fields s fs path (flatten repr show v (path ++ k ∷ []) sections) (
          listed s v (path ++ k ∷ []) sections l below
            (subst (λ y. Reaches repr show y (path ++ k ∷ []) l below) (sym same)
              (subst (λ j. Reaches repr show x (path ++ j ∷ []) l below) (sym here) r))
            h)

  -- The sections that flattening a value gives are exactly those of the scalars in it whose text is
  -- not empty, each under the path of keys and indices that leads to the scalar.
  pub flatten_iff :
      (v : Value) (s : Section)
      → Any (λ t. t ≡ s) (flatten repr show v [] []) ↔ IsLeaf repr show s v []
  unfolding IsShown
  flatten_iff v s = (
    (λ h. elim (found repr show s v [] [] h) [ inl k ↦ absurd k | inr k ↦ k ]),
    (λ (l, below, r, e, q). listed s v [] [] l below r (e, q)),
  )
