-- ===== src/Environment.antt =====
-- env.py: the variables of a `.env` file, and the names of secrets that a configuration refers to.
pub mod Loading
pub mod References
use Prim.Native.Char.{Char}
use Prim.Native.Nat.{Ordering}
use Prim.Native.String.{compare}
use alvis.Base.{
  String, ℕ, Bool, true, false, not, ◌&&◌, ◌||◌, Option, none, some, List, [], ◌∷◌, ◌++◌, map,
}
use alvis.Base.{is_some, string_eq, contains, if◌then◌else◌, length, leb, ◌==◌}
use alvis.Base.Dict.{Dict, lookup, insert}
use alvis.Base.Sort.{sort_desc}
use alvis.Value.{Value, null, num, text, seq, obj, Items, nil, cons, Fields, end, field, to_fields}
use alvis.Config.{Settings, IndexConfig, PipelineConfig}
use alvis.Text.{Text, to_list, of_list, strip, is_char, is_empty}
use alvis.Text.Lines.{splitlines}

-- `s.partition("=")` of a text that has the sign.
partition_after : Text → Text → Option (Text × Text)
unfolding is_char
partition_after before [] = none
partition_after before (c ∷ s) = elim (is_char 61 c) [
  | true ↦ some (before, s)
  | false ↦ partition_after (before ++ c ∷ []) s
]

starts_comment : Text → Bool
unfolding is_char
starts_comment [] = false
starts_comment (c ∷ s) = is_char 35 c

ends_quoted : Text → Bool
unfolding is_char
ends_quoted [] = false
ends_quoted (c ∷ []) = is_char 34 c
ends_quoted (c ∷ d ∷ s) = ends_quoted (d ∷ s)

but_last : Text → Text
but_last [] = []
but_last (c ∷ []) = []
but_last (c ∷ d ∷ s) = c ∷ but_last (d ∷ s)

-- A value of two characters or more, between double quotes, without them.
unquote : Text → Text
unfolding is_char ends_quoted but_last
unquote [] = []
unquote (c ∷ []) = c ∷ []
unquote (c ∷ d ∷ s) = if is_char 34 c && ends_quoted (d ∷ s) then but_last (d ∷ s) else c ∷ d ∷ s

dotenv_entry : Option (Text × Text) → Option (String × String)
unfolding unquote strip
dotenv_entry none = none
dotenv_entry (some (key, value)) =
    if is_empty (strip key)
    then none
    else some (of_list (strip key), of_list (unquote (strip value)))

-- The entry of a line, if it has one.
unfoldable pub parse_line : Text → Option (String × String)
unfolding starts_comment partition_after dotenv_entry strip
parse_line raw =
    if is_empty (strip raw) || starts_comment (strip raw)
    then none
    else dotenv_entry (partition_after [] (strip raw))

add_some : Option (String × String) → List (String × String) → List (String × String)
add_some none rest = rest
add_some (some e) rest = e ∷ rest

unfoldable pub parse_lines : List Text → List (String × String)
unfolding parse_line add_some
parse_lines [] = []
parse_lines (raw ∷ rest) = add_some (parse_line raw) (parse_lines rest)

-- The body of the loop of `load_dotenv`, on what it has loaded and the environment.
unfoldable pub load_entry :
    String × String
    → Dict String String × Dict String String
    → Dict String String × Dict String String
unfolding lookup insert string_eq
load_entry (key, value) (loaded, environ) =
    if is_some (lookup key environ)
    then (loaded, environ)
    else (insert key value loaded, insert key value environ)

unfoldable pub load_entries :
    List (String × String)
    → Dict String String × Dict String String
    → Dict String String × Dict String String
unfolding load_entry
load_entries [] state = state
load_entries (e ∷ entries) state = load_entries entries (load_entry e state)

-- `load_dotenv` of the text of the file, if there is one: what it returns, and the environment.
unfoldable pub load_dotenv :
    Option Text → Dict String String → Dict String String × Dict String String
unfolding load_entries parse_lines splitlines
load_dotenv none environ = ([], environ)
load_dotenv (some content) environ = load_entries (parse_lines (splitlines content)) ([], environ)

pub ends_env : Text → Bool
unfolding string_eq
ends_env [] = false
ends_env (c ∷ s) = of_list (c ∷ s) == "_env" || ends_env s

-- `key.endswith("_env") and isinstance(value, str) and value`
unfoldable pub own_refs : String → Value → List String
unfolding ends_env string_eq
own_refs key (text name) = if ends_env (to_list key) && not (name == "") then name ∷ [] else []
own_refs key _ = []

-- `_env_refs`, with the loops over the items of a list and of a dict
unfoldable mutual
  unfolding own_refs

  pub env_refs : Value → List String
  env_refs (seq xs) = item_refs xs
  env_refs (obj fs) = field_refs fs
  env_refs _ = []

  pub item_refs : Items → List String
  item_refs nil = []
  item_refs (cons v xs) = env_refs v ++ item_refs xs

  pub field_refs : Fields → List String
  field_refs end = []
  field_refs (field key v fs) = own_refs key v ++ (env_refs v ++ field_refs fs)

abbrev block : String → String → Settings → Value
block name kind config =
    obj (field name (text kind) (field "config" (obj (to_fields (λ v. v) config)) end))

index_block : Option IndexConfig → Value
unfolding to_fields
index_block none = null
index_block (some c) = block "type" c.type c.config

-- `pipeline.model_dump()`
unfoldable pub model_dump : PipelineConfig → Value
unfolding to_fields index_block
model_dump c = obj (
    field "schema_version" (num c.schema_version) (
      field "source" (block "type" c.source.type c.source.config) (
        field "extract" (block "strategy" c.extract.strategy c.extract.config) (
          field "chunk" (block "strategy" c.chunk.strategy c.chunk.config) (
            field "embed" (block "type" c.embed.type c.embed.config)
              (field "index" (index_block c.index) end))))))

-- `os.environ.get(name) in (None, "")`
unfoldable pub is_unset : Option String → Bool
unfolding string_eq
is_unset none = true
is_unset (some value) = value == ""

first_time : String → List String → List String
unfolding string_eq
first_time name names = if contains name names then names else name ∷ names

unset_names : Dict String String → List String → List String
unfolding first_time is_unset lookup string_eq
unset_names environ [] = []
unset_names environ (name ∷ names) =
    let rest = unset_names environ names in
    if is_unset (lookup name environ) then first_time name rest else rest

unfoldable pub text_before : String → String → Bool
text_before s t = elim (compare s t) [ Ordering.lt ↦ true | _ ↦ false ]

-- `missing_env`
unfoldable pub missing_env : Dict String String → PipelineConfig → List String
unfolding env_refs model_dump unset_names text_before sort_desc
missing_env environ pipeline =
    sort_desc (λ s t. text_before t s) (λ name. name)
      (unset_names environ (env_refs (model_dump pipeline)))
