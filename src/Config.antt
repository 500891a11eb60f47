-- ===== src/Config.antt =====
-- config/models.py: the blocks of a configuration, with the checks that their fields pass.
pub mod Acl
use alvis.Base.{
  String, ◌<>◌, ℕ, Bool, true, false, not, ◌||◌, ◌&&◌, Option, none, some, List, [], ◌∷◌,
}
use alvis.Base.{◌==◌, string_eq, eqb, ltb, if◌then◌else◌, contains}
use alvis.Base.Dict.{Dict, lookup}
use alvis.Value.{
  Value, null, flag, num, text, seq, obj, Items, nil, cons, Fields, end, field, get_field,
  field_keys,
}
use alvis.Errors.{Error, value_error, Result, ok, err}

abbrev pub Settings : Type 0
Settings = Dict String Value

pub record SourceConfig : Type 0 where
  pub type : String
  pub config : Settings

pub record ExtractConfig : Type 0 where
  pub strategy : String
  pub config : Settings

pub record ChunkConfig : Type 0 where
  pub strategy : String
  pub config : Settings

pub record EmbedConfig : Type 0 where
  pub type : String
  pub config : Settings

pub record IndexConfig : Type 0 where
  pub type : String
  pub config : Settings

pub record PipelineConfig : Type 0 where
  pub schema_version : ℕ
  pub source : SourceConfig
  pub extract : ExtractConfig
  pub chunk : ChunkConfig
  pub embed : EmbedConfig
  pub index : Option IndexConfig

all_texts : Items → Bool
all_texts nil = true
all_texts (cons (text s) xs) = all_texts xs
all_texts (cons v xs) = false

acl_fits : Option Value → Bool
unfolding all_texts
acl_fits none = true
acl_fits (some null) = true
acl_fits (some (seq xs)) = all_texts xs
acl_fits (some v) = false

-- `_validate_acl`
unfoldable pub validate_acl : Settings → Result Settings
unfolding acl_fits lookup string_eq
validate_acl value =
    if acl_fits (lookup "acl" value)
    then ok value
    else err (value_error "source config 'acl' must be a list of strings")

-- What `isinstance(value, int)` lets pass, as a number: a bool is one.
unfoldable pub as_int : Value → Option ℕ
as_int (num n) = some n
as_int (flag true) = some 1
as_int (flag false) = some 0
as_int _ = none

-- `value is not None and (not isinstance(value, int) or value < 1)`
positive_or_absent : Option Value → Bool
unfolding as_int
positive_or_absent none = true
positive_or_absent (some null) = true
positive_or_absent (some v) = elim (as_int v) [ none ↦ false | some n ↦ not (ltb n 1) ]

-- `_validate_extract_settings`
unfoldable pub validate_extract_settings : Settings → Result Settings
unfolding positive_or_absent lookup string_eq
validate_extract_settings value =
    if positive_or_absent (lookup "max_bytes" value)
    then ok value
    else err (value_error "extract config 'max_bytes' must be an integer >= 1")

-- The limits of the settings of chunks: the key and the minimum of each.
abbrev pub limits : List (String × ℕ)
limits = ("max_tokens", 1) ∷ ("overlap", 0) ∷ ("max_chars", 1) ∷ ("overlap_chars", 0) ∷ []

unfoldable pub checked : String → ℕ → Option ℕ → Result (Unit {0})
checked key minimum none = err (value_error ("chunk config '" <> key <> "' must be an integer"))
checked key minimum (some n) =
    if ltb n minimum
    then err (value_error ("chunk config '" <> key <> "' is below its minimum"))
    else ok tt

unfoldable pub check_setting : String → ℕ → Option Value → Result (Unit {0})
unfolding checked as_int
check_setting key minimum none = ok tt
check_setting key minimum (some null) = ok tt
check_setting key minimum (some v) = checked key minimum (as_int v)

-- The loop of `_validate_chunk_settings`.
unfoldable pub check_limits : List (String × ℕ) → Settings → Result Settings
unfolding check_setting lookup string_eq
check_limits [] value = ok value
check_limits ((key, minimum) ∷ rest) value =
    let later = check_limits rest value in
    elim (check_setting key minimum (lookup key value)) [ ok u ↦ later | err e ↦ err e ]

unfoldable pub validate_chunk_settings : Settings → Result Settings
unfolding check_limits
validate_chunk_settings value = check_limits limits value

-- `int(self.config.get(key, default))`, of a setting that has passed the check; an explicit `None` would
-- be a `TypeError`.
unfoldable pub setting_or : ℕ → Option Value → Option ℕ
unfolding as_int
setting_or default none = some default
setting_or default (some v) = as_int v

module _ (c : ChunkConfig) where
  unfoldable pub max_tokens : Option ℕ
  unfolding setting_or lookup string_eq
  max_tokens = setting_or 500 (lookup "max_tokens" c.config)

  unfoldable pub overlap : Option ℕ
  unfolding setting_or lookup string_eq
  overlap = setting_or 50 (lookup "overlap" c.config)

  unfoldable pub max_chars : Option ℕ
  unfolding setting_or lookup string_eq
  max_chars = setting_or 2000 (lookup "max_chars" c.config)

  unfoldable pub overlap_chars : Option ℕ
  unfolding setting_or lookup string_eq
  overlap_chars = setting_or 200 (lookup "overlap_chars" c.config)

only_path : List String → Bool
unfolding string_eq
only_path [] = true
only_path (k ∷ ks) = k == "path" && only_path ks

path_fits : Option Value → Bool
path_fits none = true
path_fits (some null) = true
path_fits (some (text s)) = true
path_fits (some v) = false

cache_fits : Option Value → Result (Unit {0})
unfolding only_path path_fits get_field string_eq
cache_fits none = ok tt
cache_fits (some null) = ok tt
cache_fits (some (flag b)) = ok tt
cache_fits (some (obj fs)) =
    if not (only_path (field_keys fs))
    then err (value_error "embed config 'cache' has unknown keys")
    else if path_fits (get_field "path" fs)
    then ok tt
    else err (value_error "embed config 'cache.path' must be a string")
cache_fits (some v) =
    err (value_error "embed config 'cache' must be a bool or a dict with an optional 'path'")

-- `_validate_embed_settings`
unfoldable pub validate_embed_settings : Settings → Result Settings
unfolding cache_fits lookup string_eq
validate_embed_settings value = elim (cache_fits (lookup "cache" value)) [
  | ok u ↦ ok value
  | err e ↦ err e
]

cache_on : Option Value → Bool
cache_on none = false
cache_on (some null) = false
cache_on (some (flag b)) = b
cache_on (some v) = true

unfoldable pub cache_enabled : EmbedConfig → Bool
unfolding cache_on lookup string_eq
cache_enabled c = cache_on (lookup "cache" c.config)

path_of : Option Value → Option Value
unfolding get_field string_eq
path_of (some (obj fs)) = get_field "path" fs
path_of _ = none

unfoldable pub cache_path : EmbedConfig → Option Value
unfolding path_of lookup string_eq
cache_path c = path_of (lookup "cache" c.config)

-- `_validate_schema_version`
unfoldable pub validate_schema_version : ℕ → Result ℕ
validate_schema_version value =
    if eqb value 1 then ok value else err (value_error "unsupported schema_version")
