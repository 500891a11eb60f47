-- ===== src/Extract/Json.antt =====
-- extract/json.py: JSON as sections under dotted paths.
pub mod Paths
pub mod Leaves
use alvis.Base.{
  String, ◌<>◌, ◌⊎◌, inl, inr, ℕ, suc, Bool, true, false, Option, none, some, List, [], ◌∷◌, ◌++◌,
}
use alvis.Base.{◌==◌, string_eq, if◌then◌else◌}
use alvis.Base.Dict.{lookup}
use alvis.Value.{Value, null, flag, num, text, seq, obj, Items, nil, cons, Fields, end, field, str}
use alvis.Models.{Artifact, Section, Document}
use alvis.Errors.{Error, value_error, Result, ok, err}

-- `".".join(path)`
abbrev pub dotted : List String → String
dotted [] = ""
dotted (key ∷ []) = key
dotted (key ∷ rest) = key <> "." <> dotted rest

-- `repr` of a value, and the digits of an index.
module _ (repr : Value → String) (show : ℕ → String) where
  -- `str(value) if value is not None else ""`
  unfoldable pub body_of : Value → String
  unfolding str
  body_of null = ""
  body_of v = str repr v

  unfoldable pub section_at : List String → Value → Section
  unfolding body_of
  section_at path v = record { heading = dotted path; body = body_of v }

  unfoldable pub add_scalar : Value → List String → List Section → List Section
  unfolding section_at body_of string_eq
  add_scalar v path sections =
      if body_of v == "" then sections else sections ++ section_at path v ∷ []

  -- `_flatten`, with the loops over the items of a list from an index on and of a dict
  unfoldable mutual
    unfolding add_scalar

    pub flatten : Value → List String → List Section → List Section
    flatten null path sections = add_scalar null path sections
    flatten (flag b) path sections = add_scalar (flag b) path sections
    flatten (num n) path sections = add_scalar (num n) path sections
    flatten (text t) path sections = add_scalar (text t) path sections
    flatten (seq xs) path sections = flatten_items xs 0 path sections
    flatten (obj fs) path sections = flatten_fields fs path sections

    pub flatten_items : Items → ℕ → List String → List Section → List Section
    flatten_items nil index path sections = sections
    flatten_items (cons v xs) index path sections =
        flatten_items xs (suc index) path (flatten v (path ++ show index ∷ []) sections)

    pub flatten_fields : Fields → List String → List Section → List Section
    flatten_fields end path sections = sections
    flatten_fields (field key v fs) path sections =
        flatten_fields fs path (flatten v (path ++ key ∷ []) sections)

  -- `if not sections and data is not None`
  or_whole : Value → List Section → List Section
  unfolding str
  or_whole null [] = []
  or_whole v [] = record { heading = ""; body = str repr v } ∷ []
  or_whole v (s ∷ sections) = s ∷ sections

  title_of : Option Value → String
  unfolding str
  title_of none = ""
  title_of (some v) = str repr v

  -- `extract`, for the parser of JSON texts, whose failure is a `JSONDecodeError`
  unfoldable pub extract : (String → String ⊎ Value) → Artifact → Result Document
  unfolding flatten or_whole title_of lookup string_eq
  extract loads artifact = elim (loads artifact.body) [
    | inl message ↦ err (value_error ("invalid JSON in " <> artifact.uri <> ": " <> message))
    | inr v ↦ ok (record {
      schema_version = 1;
      uri = artifact.uri;
      title = title_of (lookup "title" artifact.metadata);
      sections = or_whole v (flatten v [] []);
    })
  ]
