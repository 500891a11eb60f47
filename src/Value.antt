-- ===== src/Value.antt =====
-- The dynamic values of JSON, YAML and metadata dicts (`Any` in core/models.py and config/models.py).
use alvis.Base.{
  ◌≡◌, refl, String, ℕ, zero, suc, Bool, true, false, not, Option, none, some, List, [], ◌∷◌, arith,
}
use alvis.Base.{◌==◌, string_eq, if◌then◌else◌}
use alvis.Base.Dict.{Dict, lookup}

-- A number is a natural one; a list or a dict is one of the block, since it holds values again.
mutual
  pub data Value : Type 0 where
    null : Value
    flag : Bool → Value
    num : ℕ → Value
    text : String → Value
    seq : Items → Value
    obj : Fields → Value

  pub data Items : Type 0 where
    nil : Items
    cons : Value → Items → Items

  pub data Fields : Type 0 where
    end : Fields
    field : String → Value → Fields → Fields

-- A list of texts.
abbrev pub texts : List String → Items
texts [] = nil
texts (s ∷ xs) = cons (text s) (texts xs)

-- An optional value, where none is `None`.
abbrev pub or_null : Option Value → Value
or_null none = null
or_null (some v) = v

-- `d.get(key)` on a dict value
unfoldable pub get_field : String → Fields → Option Value
get_field key end = none
get_field key (field k v fs) = if key == k then some v else get_field key fs

-- A dict value with the given entries.
unfoldable pub to_fields {ℓ} : {A : Type ℓ} → (A → Value) → Dict String A → Fields
to_fields f [] = end
to_fields f ((k, a) ∷ d) = field k (f a) (to_fields f d)

abbrev pub field_keys : Fields → List String
field_keys end = []
field_keys (field k v fs) = k ∷ field_keys fs

abbrev pub map_value {ℓ} : {A : Type ℓ} → (A → Value) → Option A → Option Value
map_value f none = none
map_value f (some a) = some (f a)

pub get_field-to_fields {ℓ} :
    {A : Type ℓ} (f : A → Value) (k : String) (d : Dict String A)
    → get_field k (to_fields f d) ≡ map_value f (lookup k d)
unfolding get_field to_fields lookup
get_field-to_fields f k [] = refl
get_field-to_fields f k ((j, a) ∷ d) = ground (arith, get_field-to_fields f k d)

-- `bool(v)`
unfoldable pub truth : Value → Bool
unfolding string_eq
truth null = false
truth (flag b) = b
truth (num zero) = false
truth (num (suc n)) = true
truth (text s) = not (s == "")
truth (seq nil) = false
truth (seq (cons v xs)) = true
truth (obj end) = false
truth (obj (field k v fs)) = true

-- `str(v)`: a text is itself; numbers and containers have the representation `repr`.
unfoldable pub str : (Value → String) → Value → String
str repr null = "None"
str repr (flag true) = "True"
str repr (flag false) = "False"
str repr (text s) = s
str repr (num n) = repr (num n)
str repr (seq xs) = repr (seq xs)
str repr (obj fs) = repr (obj fs)

-- `v == s` for a text `s`
unfoldable pub is_text : Value → String → Bool
is_text (text t) s = t == s
is_text _ s = false
