-- ===== src/Dsl/Receives.antt =====
-- What the class of a source receives, through the configuration that the DSL writes.
use alvis.Base.{String, ◌≡◌, refl, ap, sym, true, Option, none, some, List, [], ◌∷◌, ◌++◌}
use mathlib.Core.Path.{subst}
use alvis.Base.{Eq, map, All, All-map, All-zip, string_eq}
use alvis.Base.Dict.{Dict, lookup}
use alvis.Value.{Value, or_null}
use alvis.Errors.{Result, ok, err}
use alvis.Config.{Settings, SourceConfig, validate_acl}
use alvis.Config.Acl.{validate_acl-none, validate_acl-texts}
use alvis.Plugins.{PluginRegistry}
use alvis.Factories.{Signature, builtin, source_classes, build_source}
use alvis.Factories.Passing.{passed, lookup-passed_acl, build_source_builtin}
use alvis.Dsl.{Setting, settings, source_config, name_of, true_items, is_kept, argument}
use alvis.Dsl.Sources.{acl}
use alvis.Dsl.Lookups.{distinct_names, lookup-settings, entry_of}
use alvis.Dsl.Received.{all_agree, all_agree-All, received, expected, received_setting}

All-of_append_left : (P : Setting → Type 0) (xs ys : List Setting) → All P (xs ++ ys) → All P xs
All-of_append_left P [] ys h = tt
All-of_append_left P (x ∷ xs) ys h = (h.0, All-of_append_left P xs ys h.1)

All-of_append_right : (P : Setting → Type 0) (xs ys : List Setting) → All P (xs ++ ys) → All P ys
All-of_append_right P [] ys h = h
All-of_append_right P (x ∷ xs) ys h = All-of_append_right P xs ys h.1

-- An access list of the DSL passes the check.
validate_acl_lem :
    (o : Option (List String)) (config : Settings)
    → All (λ s. lookup (name_of s) config ≡ entry_of s) (acl o)
    → (validate_acl config ≡ ok config) × (or_null (lookup "acl" config) ≡ true_items o)
unfolding is_kept argument true_items
validate_acl_lem none config (h, _) = (validate_acl-none config h, ap or_null h)
validate_acl_lem (some []) config (h, _) = (validate_acl-none config h, ap or_null h)
validate_acl_lem (some (x ∷ xs)) config (h, _) =
    (validate_acl-texts config (x ∷ xs) h, ap or_null h)

source_config_valid :
    (type : String) (config : Settings)
    → validate_acl config ≡ ok config
    → source_config type config ≡ ok (record { type = type; config = config })
unfolding source_config
source_config_valid type config h = rw (h, source_config) refl

module _ {F G : Type 0} ⦃same : Eq F⦄ (registry : PluginRegistry F G)
    (max_bytes : Option Value) where
  -- A source is configured with its access list; its class is made without it, and each keyword that is
  -- expected to have a value receives this value.
  abbrev pub Receives :
      String → Settings → Dict String Value → Option (List String) → Result SourceConfig → Type 0
  Receives class defaults expects o (err e) = ⊥
  Receives class defaults expects o (ok config) =
      (or_null (lookup "acl" config.config) ≡ true_items o)
      × ((args : Settings) × (build_source registry config max_bytes ≡ ok (builtin class args))
          × (lookup "acl" args ≡ none)
          × All (λ (name, value). received defaults args name ≡ value) expects)

  pub source_config-Receives :
      (type class : String) (signature : Signature) (defaults : Settings)
      → (arguments : List Setting) (expects : Dict String Value) (o : Option (List String))
      → lookup type source_classes ≡ some (class, signature)
      → distinct_names (arguments ++ acl o) ≡ true
      → all_agree signature defaults arguments ≡ true
      → map (λ s. (name_of s, expected max_bytes s)) arguments ≡ expects
      → Receives class defaults expects o (source_config type (settings (arguments ++ acl o)))
  source_config-Receives type class signature defaults arguments expects o known distinct agrees
        same =
      let config = settings (arguments ++ acl o) in
      let entries = lookup-settings (arguments ++ acl o) distinct in
      let args = passed signature config max_bytes in
      let (valid, acl_kept) = validate_acl_lem o config (
        All-of_append_right (λ s. lookup (name_of s) config ≡ entry_of s) arguments (acl o)
          entries) in
      subst (Receives class defaults expects o) (sym (source_config_valid type config valid)) (
        acl_kept,
        (
          args,
          build_source_builtin registry (record { type = type; config = config }) max_bytes class
              signature known,
          lookup-passed_acl signature config max_bytes,
          subst (All (λ (e : String × Value). received defaults args e.0 ≡ e.1)) same (
              All-map _ (λ s. (name_of s, expected max_bytes s)) arguments
                (All-zip arguments (received_setting signature defaults config max_bytes)
                  (all_agree-All signature defaults arguments agrees)
                  (All-of_append_left (λ s. lookup (name_of s) config ≡ entry_of s) arguments
                    (acl o) entries))),
        ),
      )
