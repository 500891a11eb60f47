-- ===== src/Plugins/Discovery.antt =====
-- plugin.py: the discovery of plugins by the entry points of the installed packages.
pub mod Again
use alvis.Base.{String, Bool, true, false, List, [], ◌∷◌, ◌++◌, Eq, contains, pair_eq, string_eq}
use alvis.Errors.{Error, Result, ok, err, Exec, ◌>>◌, ◌>>=◌}
use alvis.Plugins.{Plugin, PluginRegistry, install}

pub record EntryPoint : Type 0 where
  pub name : String
  pub value : String

-- What loading an entry point, and calling what it gives if that can be called, comes to.
pub data Loaded (F G : Type 0) : Type 0 where
  failed : String → Loaded F G
  other : Loaded F G
  found : Plugin F G → Loaded F G

abbrev pub entry_key : EntryPoint → String × String
entry_key e = (e.name, e.value)

module _ {F G : Type 0} ⦃same : Eq F⦄ where
  -- `self._loaded_entry_points.add(key)`
  note_entry_point : EntryPoint → PluginRegistry F G → PluginRegistry F G
  note_entry_point e registry = record registry {
    loaded_entry_points = entry_key e ∷ registry.loaded_entry_points;
  }

  give : List (Plugin F G) → Exec (PluginRegistry F G) (List (Plugin F G))
  give plugins registry = (ok plugins, registry)

  -- The warnings of the first two cases are not modelled.
  install_loaded : Loaded F G → Exec (PluginRegistry F G) (List (Plugin F G))
  unfolding install give
  install_loaded (failed message) = give []
  install_loaded other = give []
  install_loaded (found plugin) = install plugin >> give (plugin ∷ [])

  module _ (load : EntryPoint → Loaded F G) where
    -- One round of the loop of `discover`.
    visit : EntryPoint → Exec (PluginRegistry F G) (List (Plugin F G))
    unfolding note_entry_point install_loaded give pair_eq string_eq
    visit e registry = elim (contains (entry_key e) registry.loaded_entry_points) [
      | true ↦ give [] registry
      | false ↦ install_loaded (load e) (note_entry_point e registry)
    ]

    -- `discover`, for the entry points that the loader gives
    unfoldable pub discover : List EntryPoint → Exec (PluginRegistry F G) (List (Plugin F G))
    unfolding visit give
    discover [] = give []
    discover (e ∷ rest) = visit e >>= λ plugins. discover rest >>= λ later. give (plugins ++ later)
