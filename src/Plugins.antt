-- ===== src/Plugins.antt =====
-- plugin.py: the registry of the adapters that plugins bring.
pub mod Registration
pub mod Discovery
use alvis.Base.{String, ◌<>◌, Bool, true, false, not, Option, none, some, List, [], ◌∷◌, ◌++◌}
use alvis.Base.{Eq, ◌==◌, string_eq, if◌then◌else◌}
use alvis.Base.Dict.{Dict, lookup, insert, merge}
use alvis.Errors.{Error, value_error, Result, ok, err, Exec, ◌>>◌}

-- `KINDS`
abbrev pub kinds : List String
kinds = "source" ∷ "extractor" ∷ "chunker" ∷ "embedder" ∷ "indexer" ∷ []

-- A plugin, with the factories `F` of each kind by their type strings, and source identities `G`.
pub record Plugin (F G : Type 0) : Type 0 where
  pub name : String
  pub sources : Dict String F
  pub extractors : Dict String F
  pub chunkers : Dict String F
  pub embedders : Dict String F
  pub indexers : Dict String F
  pub source_identities : Dict String G

-- The map from kinds to the factories of each is a function.
pub record PluginRegistry (F G : Type 0) : Type 0 where
  pub plugins : List (Plugin F G)
  pub by_kind : String → Dict String F
  pub source_identities : Dict String G
  pub loaded_entry_points : List (String × String)

-- `existing is not None and existing is not factory`
conflicts : {F : Type 0} ⦃same : Eq F⦄ → Option F → F → Bool
conflicts none factory = false
conflicts (some existing) factory = not (existing == factory)

already_provided : String → String → String → Error
already_provided name kind type_str = value_error (
    "plugin '" <> name <> "' registers " <> kind <> " '" <> type_str
    <> "', which is already provided by another plugin")

module _ {F G : Type 0} ⦃same : Eq F⦄ where
  -- `provided_types`
  unfoldable pub provided_types : Plugin F G → String → Dict String F
  unfolding string_eq
  provided_types plugin kind =
      if kind == "source"
      then plugin.sources
      else if kind == "extractor"
      then plugin.extractors
      else if kind == "chunker"
      then plugin.chunkers
      else if kind == "embedder"
      then plugin.embedders
      else plugin.indexers

  set_factory : String → String → F → PluginRegistry F G → PluginRegistry F G
  unfolding insert string_eq
  set_factory kind type_str factory registry = record registry {
    by_kind =
        λ k. if k == kind then insert type_str factory (registry.by_kind k) else registry.by_kind k;
  }

  -- The inner loop of `install`.
  add_types :
      String → String → Dict String F → PluginRegistry F G → Result (Unit {0}) × PluginRegistry F G
  unfolding conflicts set_factory already_provided lookup string_eq
  add_types name kind [] registry = (ok tt, registry)
  add_types name kind ((type_str, factory) ∷ types) registry =
      elim (conflicts (lookup type_str (registry.by_kind kind)) factory) [
        | true ↦ (err (already_provided name kind type_str), registry)
        | false ↦ add_types name kind types (set_factory kind type_str factory registry)
      ]

  add_kinds : Plugin F G → List String → PluginRegistry F G → Result (Unit {0}) × PluginRegistry F G
  unfolding add_types provided_types
  add_kinds plugin [] registry = (ok tt, registry)
  add_kinds plugin (kind ∷ rest) registry =
      (add_types plugin.name kind (provided_types plugin kind) >> add_kinds plugin rest) registry

  note_plugin : Plugin F G → PluginRegistry F G → Result (Unit {0}) × PluginRegistry F G
  unfolding merge insert string_eq
  note_plugin plugin registry = (
    ok tt,
    record registry {
      source_identities = merge registry.source_identities plugin.source_identities;
      plugins = registry.plugins ++ plugin ∷ [];
    },
  )

  -- `install`; what has been registered before a conflict stays.
  unfoldable pub install : Plugin F G → PluginRegistry F G → Result (Unit {0}) × PluginRegistry F G
  unfolding add_kinds note_plugin
  install plugin registry = (add_kinds plugin kinds >> note_plugin plugin) registry

  -- `factory`
  unfoldable pub factory_of : String → String → PluginRegistry F G → Option F
  unfolding lookup string_eq
  factory_of kind type_str registry = lookup type_str (registry.by_kind kind)
