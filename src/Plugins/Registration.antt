-- ===== src/Plugins/Registration.antt =====
-- What installing a plugin changes in the registry.
use alvis.Base.{
  String, ◌≡◌, refl, ap, sym, ◌∙◌, inl, inr, Bool, true, false, not, some, List, [], ◌∷◌,
}
use alvis.Base.{Eq, ◌==◌, string_eq, if◌then◌else◌, elim_cases, Bool-cases, ==→eq}
use mathlib.Core.Bool.{false≢true}
use mathlib.Core.Path.{ap₂}
use alvis.Base.Dict.{Dict, lookup, insert, lookup-insert}
use alvis.Errors.{Result, >>-keeps}
use alvis.Plugins.{
  Plugin, PluginRegistry, kinds, provided_types, conflicts, set_factory, add_types, add_kinds,
  note_plugin, install, factory_of,
}

lookup-if_insert :
    {F : Type 0} (b : Bool) (t type_str : String) (factory : F) (d : Dict String F)
    → lookup t (if b then insert type_str factory d else d)
      ≡ (if b then (if t == type_str then some factory else lookup t d) else lookup t d)
lookup-if_insert true t type_str factory d = lookup-insert t type_str factory d
lookup-if_insert false t type_str factory d = refl

conflicts-same :
    {F : Type 0} ⦃same : Eq F⦄ (f factory : F) → conflicts (some f) factory ≡ false → f ≡ factory
unfolding conflicts
conflicts-same f factory h = elim (Bool-cases (f == factory)) [
  | inl e ↦ ==→eq f factory e
  | inr e ↦ absurd (false≢true (sym h ∙ ap not e))
]

module _ {F G : Type 0} ⦃same : Eq F⦄ where
  -- The registry has the factory for the type of the kind.
  abbrev pub Has : String → String → F → PluginRegistry F G → Type 0
  Has kind type_str f registry = factory_of kind type_str registry ≡ some f

  set_factory-lookup :
      (kind type_str : String) (factory : F) (registry : PluginRegistry F G) (k t : String)
      → factory_of k t (set_factory kind type_str factory registry) ≡ (
          if k == kind
          then (if t == type_str then some factory else factory_of k t registry)
          else factory_of k t registry)
  unfolding set_factory factory_of
  set_factory-lookup kind type_str factory registry k t =
      lookup-if_insert (k == kind) t type_str factory (registry.by_kind k)

  set_factory-keeps :
      (kind type_str : String) (factory : F) (registry : PluginRegistry F G)
      → conflicts (factory_of kind type_str registry) factory ≡ false
      → (k t : String) (f : F) → Has k t f registry
      → Has k t f (set_factory kind type_str factory registry)
  set_factory-keeps kind type_str factory registry fine k t f h =
      set_factory-lookup kind type_str factory registry k t ∙ elim (Bool-cases (k == kind)) [
        | inr e ↦ rw e h
        | inl e ↦ elim (Bool-cases (t == type_str)) [
          | inr d ↦ rw (e, d) h
          | inl d ↦
              let here : factory_of kind type_str registry ≡ some f =
                ap₂ (λ k t. factory_of k t registry) (sym (==→eq k kind e))
                  (sym (==→eq t type_str d))
                ∙ h in
              rw (e, d)
                (ap some (
                  sym (conflicts-same f factory (sym (ap (λ o. conflicts o factory) here) ∙ fine))))
        ]
      ]

  add_types-keeps :
      (name kind : String) (types : Dict String F) (registry : PluginRegistry F G)
      → (k t : String) (f : F) → Has k t f registry
      → Has k t f (add_types name kind types registry).1
  unfolding add_types
  add_types-keeps name kind [] registry k t f h = h
  add_types-keeps name kind ((type_str, factory) ∷ types) registry k t f h =
      elim_cases (λ (r : Result (Unit {0}) × PluginRegistry F G). Has k t f r.1)
        (conflicts (lookup type_str (registry.by_kind kind)) factory) _ _ (λ _. h)
        (λ fine.
          add_types-keeps name kind types (set_factory kind type_str factory registry) k t f
            (set_factory-keeps kind type_str factory registry (unfold factory_of in fine) k t f h))

  add_kinds-keeps :
      (plugin : Plugin F G) (ks : List String) (registry : PluginRegistry F G)
      → (k t : String) (f : F) → Has k t f registry
      → Has k t f (add_kinds plugin ks registry).1
  unfolding add_kinds
  add_kinds-keeps plugin [] registry k t f h = h
  add_kinds-keeps plugin (kind ∷ rest) registry k t f h =
      >>-keeps (Has k t f) (add_types plugin.name kind (provided_types plugin kind))
        (add_kinds plugin rest) registry
        (add_types-keeps plugin.name kind (provided_types plugin kind) registry k t f h)
        (λ registry' h'. add_kinds-keeps plugin rest registry' k t f h')

  note_plugin-keeps :
      (plugin : Plugin F G) (registry : PluginRegistry F G) (k t : String) (f : F)
      → Has k t f registry
      → Has k t f (note_plugin plugin registry).1
  unfolding note_plugin factory_of
  note_plugin-keeps plugin registry k t f h = h

  -- Installing a plugin, also one that conflicts, replaces no factory that the registry has.
  pub install-keeps :
      (plugin : Plugin F G) (registry : PluginRegistry F G) (k t : String) (f : F)
      → factory_of k t registry ≡ some f
      → factory_of k t (install plugin registry).1 ≡ some f
  unfolding install
  install-keeps plugin registry k t f h =
      >>-keeps (Has k t f) (add_kinds plugin kinds) (note_plugin plugin) registry
        (add_kinds-keeps plugin kinds registry k t f h)
        (λ registry' h'. note_plugin-keeps plugin registry' k t f h')
