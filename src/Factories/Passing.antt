-- ===== src/Factories/Passing.antt =====
-- What the class of a source is called with.
use alvis.Base.{
  String, ◌≡◌, refl, ap, ◌∙◌, Bool, true, false, not, Option, none, some, [], ◌∷◌, arith,
}
use alvis.Base.{Eq, ◌==◌, string_eq, if◌then◌else◌}
use alvis.Base.Dict.{Dict, lookup, filter_items}
use alvis.Value.{Value, or_null}
use alvis.Errors.{ok}
use alvis.Config.{Settings, SourceConfig}
use alvis.Plugins.{PluginRegistry}
use alvis.Factories.{
  Signature, capped, plain, bare, builtin, is_present, cap_of, arguments, drop_key, built,
  source_classes, build_source,
}

-- The keyword arguments.
unfoldable pub passed : Signature → Settings → Option Value → Settings
unfolding arguments drop_key cap_of
passed signature config max_bytes =
    arguments signature (drop_key "max_bytes" (drop_key "acl" config))
      (cap_of (drop_key "acl" config) max_bytes)

lookup-filter_keys :
    {K V : Type 0} ⦃e : Eq K⦄ (key k : K) (d : Dict K V)
    → lookup k (filter_items (λ j v. not (j == key)) d) ≡ (if k == key then none else lookup k d)
unfolding lookup filter_items
lookup-filter_keys key k [] = ground arith
lookup-filter_keys key k ((j, v) ∷ d) = ground (arith, lookup-filter_keys key k d)

lookup-drop_key :
    (key k : String) (d : Settings)
    → lookup k (drop_key key d) ≡ (if k == key then none else lookup k d)
unfolding drop_key
lookup-drop_key key k d = lookup-filter_keys key k d

lookup-drop_key_ne :
    (key k : String) (d : Settings) → (k == key) ≡ false → lookup k (drop_key key d) ≡ lookup k d
lookup-drop_key_ne key k d h = lookup-drop_key key k d ∙ rw h refl

abbrev pub is_bare : Signature → Bool
is_bare bare = true
is_bare _ = false

lookup-arguments :
    (signature : Signature) (k : String) (d : Settings) (cap : Value)
    → is_bare signature ≡ false
    → (k == "max_bytes") ≡ false
    → lookup k (arguments signature d cap) ≡ lookup k d
unfolding arguments lookup
lookup-arguments capped k d cap h other = ground arith
lookup-arguments plain k d cap h other = refl
lookup-arguments bare k d cap h other = absurd cc

-- A setting that is not reserved is passed on.
pub lookup-passed :
    (signature : Signature) (k : String) (config : Settings) (max_bytes : Option Value)
    → is_bare signature ≡ false
    → (k == "max_bytes") ≡ false
    → (k == "acl") ≡ false
    → lookup k (passed signature config max_bytes) ≡ lookup k config
unfolding passed
lookup-passed signature k config max_bytes h other no_acl =
    lookup-arguments signature k _ _ h other
    ∙ lookup-drop_key_ne "max_bytes" k (drop_key "acl" config) other
    ∙ lookup-drop_key_ne "acl" k config no_acl

-- The cap of the configuration goes before the engine's.
pub lookup-passed_cap :
    (config : Settings) (max_bytes : Option Value)
    → lookup "max_bytes" (passed capped config max_bytes)
      ≡ some (
          if is_present (lookup "max_bytes" config)
          then or_null (lookup "max_bytes" config)
          else or_null max_bytes)
unfolding passed arguments cap_of lookup string_eq
lookup-passed_cap config max_bytes =
    ap (λ o. some (if is_present o then or_null o else or_null max_bytes))
      (lookup-drop_key_ne "acl" "max_bytes" config refl)

-- The access list is never passed to a class that takes settings.
pub lookup-passed_acl :
    (signature : Signature) (config : Settings) (max_bytes : Option Value)
    → lookup "acl" (passed signature config max_bytes) ≡ none
unfolding passed arguments lookup string_eq
lookup-passed_acl capped config max_bytes =
    lookup-drop_key_ne "max_bytes" "acl" (drop_key "acl" config) refl
    ∙ lookup-drop_key "acl" "acl" config
lookup-passed_acl plain config max_bytes =
    lookup-drop_key_ne "max_bytes" "acl" (drop_key "acl" config) refl
    ∙ lookup-drop_key "acl" "acl" config
lookup-passed_acl bare config max_bytes = refl

module _ {F G : Type 0} ⦃same : Eq F⦄ (registry : PluginRegistry F G) where
  pub build_source_builtin :
      (c : SourceConfig) (max_bytes : Option Value) (class : String) (signature : Signature)
      → lookup c.type source_classes ≡ some (class, signature)
      → build_source registry c max_bytes ≡ ok (builtin class (passed signature c.config max_bytes))
  unfolding build_source built passed
  build_source_builtin c max_bytes class signature h = rw h refl
