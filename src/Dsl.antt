-- ===== src/Dsl.antt =====
-- dsl.py: the settings that its functions leave out of a configuration, and those that they keep.
pub mod Records
pub mod Sources
pub mod Stages
pub mod Chunks
pub mod Received
pub mod Calls
pub mod Expects
pub mod Receives
pub mod Delivery
pub mod Lookups
use alvis.Base.{String, ℕ, Bool, true, false, not, Option, none, some, List, [], ◌∷◌, ◌++◌}
use alvis.Base.{◌==◌, string_eq, eqb, if◌then◌else◌}
use alvis.Value.{Value, null, flag, num, text, seq, or_null, texts}
use alvis.Errors.{Error, value_error, Result, ok, err}
use alvis.Config.{Settings, SourceConfig, validate_acl}

-- The entries of the dict displays: `"k": v`, `{"k": v} if v != default else {}` for texts and numbers,
-- `if verify is not True`, `if v` for flags, texts and lists, `if v is not None`.
pub data Setting : Type 0 where
  always : String → Value → Setting
  unless_text : String → String → String → Setting
  unless_num : String → ℕ → ℕ → Setting
  unless_true : String → Value → Setting
  if_flag : String → Bool → Setting
  if_text : String → Option String → Setting
  if_items : String → Option (List String) → Setting
  if_given : String → Option Value → Setting

-- What is true of an optional text or list, and null otherwise.
unfoldable pub true_text : Option String → Value
unfolding string_eq
true_text none = null
true_text (some s) = if s == "" then null else text s

unfoldable pub true_items : Option (List String) → Value
true_items none = null
true_items (some []) = null
true_items (some (s ∷ xs)) = seq (texts (s ∷ xs))

unfoldable pub is_true : Value → Bool
is_true (flag b) = b
is_true _ = false

abbrev pub name_of : Setting → String
name_of (always key v) = key
name_of (unless_text key default s) = key
name_of (unless_num key default n) = key
name_of (unless_true key v) = key
name_of (if_flag key b) = key
name_of (if_text key o) = key
name_of (if_items key o) = key
name_of (if_given key o) = key

-- The argument that a function of the DSL is called with; a false text or list is none.
unfoldable pub argument : Setting → Value
unfolding true_text true_items
argument (always key v) = v
argument (unless_text key default s) = text s
argument (unless_num key default n) = num n
argument (unless_true key v) = v
argument (if_flag key b) = flag b
argument (if_text key o) = true_text o
argument (if_items key o) = true_items o
argument (if_given key o) = or_null o

-- Whether the entry is kept.
unfoldable pub is_kept : Setting → Bool
unfolding is_true string_eq
is_kept (always key v) = true
is_kept (unless_text key default s) = not (s == default)
is_kept (unless_num key default n) = not (eqb n default)
is_kept (unless_true key v) = not (is_true v)
is_kept (if_flag key b) = b
is_kept (if_text key none) = false
is_kept (if_text key (some s)) = not (s == "")
is_kept (if_items key none) = false
is_kept (if_items key (some [])) = false
is_kept (if_items key (some (s ∷ xs))) = true
is_kept (if_given key none) = false
is_kept (if_given key (some v)) = true

unfoldable pub settings : List Setting → Settings
unfolding is_kept argument
settings [] = []
settings (s ∷ rest) =
    let later = settings rest in if is_kept s then (name_of s, argument s) ∷ later else later

-- What most of the functions take: `retries`, `retry_backoff` and `verify`.
pub record Access : Type 0 where
  pub retries : ℕ
  pub retry_backoff : ℕ
  pub verify : Value

abbrev pub access : Access → List Setting
access a =
    unless_num "retries" 3 a.retries
    ∷ unless_num "retry_backoff" 1 a.retry_backoff
    ∷ unless_true "verify" a.verify
    ∷ []

-- `SourceConfig(type=..., config=...)`, with its validator
unfoldable pub source_config : String → Settings → Result SourceConfig
unfolding validate_acl
source_config type config = elim (validate_acl config) [
  | ok value ↦ ok (record { type = type; config = value })
  | err e ↦ err e
]
