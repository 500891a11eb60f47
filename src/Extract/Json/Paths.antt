-- ===== src/Extract/Json/Paths.antt =====
-- The scalars below a JSON value with the paths that lead to them, among which are the sections of
-- the flattened value.
use alvis.Base.{
  String, ℕ, suc, ◌≡◌, refl, sym, ◌∙◌, ◌⊎◌, inl, inr, Bool, true, false, List, [], ◌∷◌, ◌++◌,
}
use alvis.Base.{◌==◌, string_eq, if_cases, Any}
use mathlib.Core.Bool.{false≢true}
use alvis.Value.{Value, null, flag, num, text, seq, obj, Items, nil, cons, Fields, end, field}
use alvis.Models.{Section}
use alvis.Extract.Json.{body_of, section_at, add_scalar, flatten, flatten_items, flatten_fields}

abbrev pub is_scalar : Value → Bool
is_scalar (seq xs) = false
is_scalar (obj fs) = false
is_scalar v = true

-- The list, whose items are counted from the start, has the value at the index.
abbrev pub ItemAt : Items → ℕ → ℕ → Value → Type 0
ItemAt nil start index v = ⊥
ItemAt (cons x xs) start index v = ((start ≡ index) × (x ≡ v)) ⊎ ItemAt xs (suc start) index v

abbrev pub FieldIn : Fields → String → Value → Type 0
FieldIn end key v = ⊥
FieldIn (field k x fs) key v = ((k ≡ key) × (x ≡ v)) ⊎ FieldIn fs key v

abbrev pub Holds : Section → List Section → Type 0
Holds s sections = Any (λ t. t ≡ s) sections

Holds-append :
    (s t : Section) (sections : List Section)
    → Holds s (sections ++ t ∷ [])
    → Holds s sections ⊎ (t ≡ s)
Holds-append s t [] (inl e) = inr e
Holds-append s t [] (inr h) = absurd h
Holds-append s t (x ∷ sections) (inl e) = inl (inl e)
Holds-append s t (x ∷ sections) (inr h) = elim (Holds-append s t sections h) [
  | inl k ↦ inl (inr k)
  | inr e ↦ inr e
]

append-Holds :
    (s t : Section) (sections : List Section)
    → Holds s sections ⊎ (t ≡ s)
    → Holds s (sections ++ t ∷ [])
append-Holds s t [] (inl h) = absurd h
append-Holds s t [] (inr e) = inl e
append-Holds s t (x ∷ sections) (inl (inl e)) = inl e
append-Holds s t (x ∷ sections) (inl (inr h)) = inr (append-Holds s t sections (inl h))
append-Holds s t (x ∷ sections) (inr e) = inr (append-Holds s t sections (inr e))

module _ (repr : Value → String) (show : ℕ → String) where
  -- From a value under a path one can walk down to a scalar under a path.
  pub data Reaches : Value → List String → Value → List String → Type 0 where
    leaf : {v : Value} {path : List String} → is_scalar v ≡ true → Reaches v path v path
    element :
        {xs : Items} {path : List String} (index : ℕ) (x : Value) {v : Value} {below : List String}
        → ItemAt xs 0 index x
        → Reaches x (path ++ show index ∷ []) v below
        → Reaches (seq xs) path v below
    member :
        {fs : Fields} {path : List String} (key : String) (x : Value) {v : Value}
        {below : List String}
        → FieldIn fs key x
        → Reaches x (path ++ key ∷ []) v below
        → Reaches (obj fs) path v below

  -- The section is that of a scalar, with a text that is not empty, below the value.
  abbrev pub IsLeaf : Section → Value → List String → Type 0
  IsLeaf s v path =
      (l : Value) × (below : List String) × Reaches v path l below
      × ((body_of repr show l == "") ≡ false)
      × (section_at repr show below l ≡ s)

  scalar-IsLeaf :
      (s : Section) (v : Value) (path : List String) (sections : List Section)
      → is_scalar v ≡ true
      → Holds s (add_scalar repr show v path sections)
      → Holds s sections ⊎ IsLeaf s v path
  unfolding add_scalar
  scalar-IsLeaf s v path sections scalar =
      if_cases (λ ts. Holds s ts → Holds s sections ⊎ IsLeaf s v path) (body_of repr show v == "") _
        _ (λ _ h. inl h)
        (λ e h. elim (Holds-append s (section_at repr show path v) sections h) [
          | inl k ↦ inl k
          | inr q ↦ inr (v, path, leaf scalar, e, q)
        ])

  pub add_scalar-Holds :
      (s : Section) (v : Value) (path : List String) (sections : List Section)
      → Holds s sections
        ⊎ (((body_of repr show v == "") ≡ false) × (section_at repr show path v ≡ s))
      → Holds s (add_scalar repr show v path sections)
  unfolding add_scalar
  add_scalar-Holds s v path sections (inl h) =
      if_cases (Holds s) (body_of repr show v == "") _ _ (λ _. h)
        (λ _. append-Holds s (section_at repr show path v) sections (inl h))
  add_scalar-Holds s v path sections (inr (e, q)) =
      if_cases (Holds s) (body_of repr show v == "") _ _ (λ d. absurd (false≢true (sym e ∙ d)))
        (λ _. append-Holds s (section_at repr show path v) sections (inr q))

  element-IsLeaf :
      (s : Section) (xs : Items) (path : List String) (index : ℕ) (x : Value)
      → ItemAt xs 0 index x
      → IsLeaf s x (path ++ show index ∷ [])
      → IsLeaf s (seq xs) path
  element-IsLeaf s xs path index x at (l, below, r, e, q) = (l, below, element index x at r, e, q)

  member-IsLeaf :
      (s : Section) (fs : Fields) (path : List String) (key : String) (x : Value)
      → FieldIn fs key x
      → IsLeaf s x (path ++ key ∷ [])
      → IsLeaf s (obj fs) path
  member-IsLeaf s fs path key x at (l, below, r, e, q) = (l, below, member key x at r, e, q)

  mutual
    unfolding flatten

    pub found :
        (s : Section) (v : Value) (path : List String) (sections : List Section)
        → Holds s (flatten repr show v path sections)
        → Holds s sections ⊎ IsLeaf s v path
    found s null path sections h = scalar-IsLeaf s null path sections refl h
    found s (flag b) path sections h = scalar-IsLeaf s (flag b) path sections refl h
    found s (num n) path sections h = scalar-IsLeaf s (num n) path sections refl h
    found s (text t) path sections h = scalar-IsLeaf s (text t) path sections refl h
    found s (seq xs) path sections h = elim (found_item s xs 0 path sections h) [
      | inl k ↦ inl k
      | inr (index, x, at, k) ↦ inr (element-IsLeaf s xs path index x at k)
    ]
    found s (obj fs) path sections h = elim (found_field s fs path sections h) [
      | inl k ↦ inl k
      | inr (key, x, at, k) ↦ inr (member-IsLeaf s fs path key x at k)
    ]

    found_item :
        (s : Section) (xs : Items) (start : ℕ) (path : List String) (sections : List Section)
        → Holds s (flatten_items repr show xs start path sections)
        → Holds s sections
          ⊎ ((index : ℕ) × (x : Value) × ItemAt xs start index x
              × IsLeaf s x (path ++ show index ∷ []))
    found_item s nil start path sections h = inl h
    found_item s (cons v xs) start path sections h =
        elim (found_item s xs (suc start) path
          (flatten repr show v (path ++ show start ∷ []) sections) h) [
            | inr (index, x, at, k) ↦ inr (index, x, inr at, k)
            | inl k ↦ elim (found s v (path ++ show start ∷ []) sections k) [
              | inl j ↦ inl j
              | inr j ↦ inr (start, v, inl (refl, refl), j)
            ]
          ]

    found_field :
        (s : Section) (fs : Fields) (path : List String) (sections : List Section)
        → Holds s (flatten_fields repr show fs path sections)
        → Holds s sections
          ⊎ ((key : String) × (x : Value) × FieldIn fs key x × IsLeaf s x (path ++ key ∷ []))
    found_field s end path sections h = inl h
    found_field s (field key v fs) path sections h =
        elim (found_field s fs path (flatten repr show v (path ++ key ∷ []) sections) h) [
          | inr (k, x, at, j) ↦ inr (k, x, inr at, j)
          | inl k ↦ elim (found s v (path ++ key ∷ []) sections k) [
            | inl j ↦ inl j
            | inr j ↦ inr (key, v, inl (refl, refl), j)
          ]
        ]
