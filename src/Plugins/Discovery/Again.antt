-- ===== src/Plugins/Discovery/Again.antt =====
-- Discovering a second time finds nothing.
use alvis.Base.{String, ◌≡◌, refl, ap, sym, ◌∙◌, true, ◌||◌, List, [], ◌∷◌, ◌++◌, inl, inr, arith}
use alvis.Base.{Eq, ◌==◌, contains, pair_eq, string_eq, ==_refl, ==→eq, elim_cases, Bool-cases, All}
use alvis.Base.Dict.{Dict, lookup}
use mathlib.Core.Bool.{false≢true}
use alvis.Errors.{Result, ok, err, Exec, proceed, ◌>>=◌, >>-keeps}
use alvis.Plugins.{
  Plugin, PluginRegistry, kinds, provided_types, conflicts, set_factory, add_types, add_kinds,
  note_plugin, install,
}
use alvis.Plugins.Discovery.{
  EntryPoint, Loaded, failed, other, found, entry_key, note_entry_point, give, install_loaded,
  visit, discover,
}

module _ {F G : Type 0} ⦃same : Eq F⦄ where
  abbrev Marked : List (String × String) → PluginRegistry F G → Type 0
  Marked marks registry = registry.loaded_entry_points ≡ marks

  add_types-Marked :
      (name kind : String) (types : Dict String F) (marks : List (String × String))
      → (registry : PluginRegistry F G) → Marked marks registry
      → Marked marks (add_types name kind types registry).1
  unfolding add_types set_factory
  add_types-Marked name kind [] marks registry h = h
  add_types-Marked name kind ((type_str, factory) ∷ types) marks registry h =
      elim_cases (λ (r : Result (Unit {0}) × PluginRegistry F G). Marked marks r.1)
        (conflicts (lookup type_str (registry.by_kind kind)) factory) _ _ (λ _. h)
        (λ _. add_types-Marked name kind types marks (set_factory kind type_str factory registry) h)

  add_kinds-Marked :
      (plugin : Plugin F G) (ks : List String) (marks : List (String × String))
      → (registry : PluginRegistry F G) → Marked marks registry
      → Marked marks (add_kinds plugin ks registry).1
  unfolding add_kinds
  add_kinds-Marked plugin [] marks registry h = h
  add_kinds-Marked plugin (kind ∷ rest) marks registry h =
      >>-keeps (Marked marks) (add_types plugin.name kind (provided_types plugin kind))
        (add_kinds plugin rest) registry
        (add_types-Marked plugin.name kind (provided_types plugin kind) marks registry h)
        (λ registry' h'. add_kinds-Marked plugin rest marks registry' h')

  install-Marked :
      (plugin : Plugin F G) (marks : List (String × String)) (registry : PluginRegistry F G)
      → Marked marks registry
      → Marked marks (install plugin registry).1
  unfolding install note_plugin
  install-Marked plugin marks registry h =
      >>-keeps (Marked marks) (add_kinds plugin kinds) (note_plugin plugin) registry
        (add_kinds-Marked plugin kinds marks registry h) (λ registry' h'. h')

  install_loaded-Marked :
      (l : Loaded F G) (marks : List (String × String)) (registry : PluginRegistry F G)
      → Marked marks registry
      → Marked marks (install_loaded l registry).1
  unfolding install_loaded give
  install_loaded-Marked (failed message) marks registry h = h
  install_loaded-Marked other marks registry h = h
  install_loaded-Marked (found plugin) marks registry h =
      >>-keeps (Marked marks) (install plugin) (give (plugin ∷ [])) registry
        (install-Marked plugin marks registry h) (λ registry' h'. h')

  -- The entry point is noted as loaded.
  abbrev IsNoted : EntryPoint → PluginRegistry F G → Type 0
  IsNoted e registry = contains (entry_key e) registry.loaded_entry_points ≡ true

  module _ (load : EntryPoint → Loaded F G) where
    visited :
        (e : EntryPoint) (registry : PluginRegistry F G)
        → IsNoted e registry
        → visit load e registry ≡ (ok [], registry)
    unfolding visit give
    visited e registry h =
        elim_cases (λ (r : Result (List (Plugin F G)) × PluginRegistry F G). r ≡ (ok [], registry))
          (contains (entry_key e) registry.loaded_entry_points) _ _ (λ _. refl)
          (λ new. absurd (false≢true (sym new ∙ h)))

    visit-IsNoted :
        (e d : EntryPoint) (registry : PluginRegistry F G)
        → (contains (entry_key d) (entry_key e ∷ registry.loaded_entry_points) ≡ true)
        → IsNoted d (visit load e registry).1
    unfolding visit give note_entry_point
    visit-IsNoted e d registry h =
        elim_cases (λ (r : Result (List (Plugin F G)) × PluginRegistry F G). IsNoted d r.1)
          (contains (entry_key e) registry.loaded_entry_points) _ _
          (λ noted. elim (Bool-cases (entry_key d == entry_key e)) [
            | inl this ↦
                ap (λ k. contains k registry.loaded_entry_points)
                  (==→eq (entry_key d) (entry_key e) this)
                ∙ noted
            | inr differ ↦
                sym (ap (λ b. b || contains (entry_key d) registry.loaded_entry_points) differ) ∙ h
          ])
          (λ _.
            ap (contains (entry_key d)) (
              install_loaded-Marked (load e) (entry_key e ∷ registry.loaded_entry_points)
                (note_entry_point e registry) refl)
            ∙ h)

    abbrev Run : Type 0
    Run = Result (List (Plugin F G)) × PluginRegistry F G

    -- The visit of an entry point, and then the rest of the loop.
    abbrev joined : Run → Exec (PluginRegistry F G) (List (Plugin F G)) → Run
    joined r rest = proceed r.0 (λ plugins. rest >>= λ later. give (plugins ++ later)) r.1

    joined-keeps :
        (P : PluginRegistry F G → Type 0) (r : Run)
        → (rest : Exec (PluginRegistry F G) (List (Plugin F G))) → P r.1
        → P (rest r.1).1
        → P (joined r rest).1
    unfolding give
    joined-keeps P (err e, s) rest p q = p
    joined-keeps P (ok plugins, s) rest p q = second (rest s) q
      where
        second : (t : Run) → P t.1 → P (proceed t.0 (λ later. give (plugins ++ later)) t.1).1
        second (ok later, s') k = k
        second (err e, s') k = k

    abbrev IsOk : Run → Type 0
    IsOk r = (plugins : List (Plugin F G)) × (r.0 ≡ ok plugins)

    joined-ends :
        (P : PluginRegistry F G → Type 0) (r : Run)
        → (rest : Exec (PluginRegistry F G) (List (Plugin F G)))
        → (IsOk (rest r.1) → P (rest r.1).1)
        → IsOk (joined r rest)
        → P (joined r rest).1
    unfolding give
    joined-ends P (err e, s) rest p (plugins, done) = cc
    joined-ends P (ok plugins, s) rest p done = second (rest s) p done
      where
        second :
            (t : Run)
            → (IsOk t → P t.1)
            → IsOk (proceed t.0 (λ later. give (plugins ++ later)) t.1)
            → P (proceed t.0 (λ later. give (plugins ++ later)) t.1).1
        second (ok later, s') k done = k (later, refl)
        second (err e, s') k (all, done) = cc

    discover-keeps :
        (d : EntryPoint) (es : List EntryPoint) (registry : PluginRegistry F G)
        → IsNoted d registry
        → IsNoted d (discover load es registry).1
    unfolding discover give
    discover-keeps d [] registry h = h
    discover-keeps d (e ∷ rest) registry h =
        let here : IsNoted d (visit load e registry).1 =
          visit-IsNoted e d registry (ground (arith, h)) in
        joined-keeps (IsNoted d) (visit load e registry) (discover load rest) here
          (discover-keeps d rest (visit load e registry).1 here)

    discover-IsNoted :
        (es : List EntryPoint) (registry : PluginRegistry F G)
        → IsOk (discover load es registry)
        → All (λ e. IsNoted e (discover load es registry).1) es
    unfolding discover
    discover-IsNoted [] registry done = tt
    discover-IsNoted (e ∷ rest) registry done =
        joined-ends (λ s. IsNoted e s × All (λ d. IsNoted d s) rest) (visit load e registry)
          (discover load rest)
          (λ ended. (
            discover-keeps e rest (visit load e registry).1
                (visit-IsNoted e e registry (rw (==_refl (entry_key e)) refl)),
            discover-IsNoted rest (visit load e registry).1 ended,
          ))
          done

    nothing_new :
        (es : List EntryPoint) (registry : PluginRegistry F G)
        → All (λ e. IsNoted e registry) es
        → discover load es registry ≡ (ok [], registry)
    unfolding discover give
    nothing_new [] registry h = refl
    nothing_new (e ∷ rest) registry h =
        rw (visited e registry h.0, nothing_new rest registry h.1) refl

  -- If the discovery of the plugins of some entry points does not raise, then discovering them
  -- again, whatever loading gives by then, finds no plugin and leaves the registry alone.
  pub discover-discover :
      (load again : EntryPoint → Loaded F G) (es : List EntryPoint)
      → (registry : PluginRegistry F G) (plugins : List (Plugin F G))
      → (discover load es registry).0 ≡ ok plugins
      → discover again es (discover load es registry).1 ≡ (ok [], (discover load es registry).1)
  discover-discover load again es registry plugins done =
      nothing_new again es (discover load es registry).1
        (discover-IsNoted load es registry (plugins, done))
