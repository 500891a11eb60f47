-- ===== src/Tests/PluginRuns.antt =====
-- Two plugins, of which the second conflicts with the first.
use alvis.Base.{◌==◌, if◌then◌else◌, pair_eq, String, ◌≡◌, refl, some, List, [], ◌∷◌, string_eq}
use alvis.Errors.{ok}
use alvis.Plugins.{Plugin, PluginRegistry, install, factory_of}
use alvis.Plugins.Discovery.{EntryPoint, Loaded, failed, other, found, discover}
use alvis.Plugins.Discovery.Again.{discover-discover}
use alvis.Plugins.Registration.{install-keeps}

-- Texts name the factories.
abbrev plugin : String → List (String × String) → List (String × String) → Plugin String String
plugin name sources chunkers = record {
  name = name;
  sources = sources;
  extractors = [];
  chunkers = chunkers;
  embedders = [];
  indexers = [];
  source_identities = [];
}

abbrev catalog : Plugin String String
catalog = plugin "catalog" (("catalog", "f1") ∷ []) (("lines", "f2") ∷ [])

abbrev rival : Plugin String String
rival = plugin "rival" (("wiki", "g1") ∷ []) (("lines", "g2") ∷ [])

abbrev empty : PluginRegistry String String
empty = record { plugins = []; by_kind = λ k. []; source_identities = []; loaded_entry_points = [] }

unfoldable pub installed : PluginRegistry String String
unfolding install string_eq
installed = (install catalog empty).1

done : (install catalog empty).0 ≡ ok tt
unfolding install string_eq
done = refl

-- What the rival has registered before its conflict stays, though it is no plugin of the registry.
partial :
    (factory_of "source" "wiki" (install rival installed).1 ≡ some "g1")
    × ((install rival installed).1.plugins ≡ catalog ∷ [])
unfolding install factory_of installed string_eq
partial = (refl, refl)

install-keeps_example : factory_of "chunker" "lines" (install rival installed).1 ≡ some "f2"
unfolding installed factory_of install string_eq
install-keeps_example = install-keeps rival installed "chunker" "lines" "f2" refl

abbrev entry_point : String → EntryPoint
entry_point name = record { name = name; value = name }

abbrev entry_points : List EntryPoint
entry_points = entry_point "catalog" ∷ entry_point "broken" ∷ entry_point "catalog" ∷ []

-- Of the two entry points one fails to load.
loading : EntryPoint → Loaded String String
unfolding string_eq
loading e = if e.name == "catalog" then found catalog else failed "no module named broken"

discovered : (discover loading entry_points empty).0 ≡ ok (catalog ∷ [])
unfolding discover loading pair_eq string_eq
discovered = refl

discover-discover_example :
    discover (λ e. other) entry_points (discover loading entry_points empty).1
    ≡ (ok [], (discover loading entry_points empty).1)
discover-discover_example =
    discover-discover loading (λ e. other) entry_points empty (catalog ∷ []) discovered
