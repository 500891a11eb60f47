-- ===== src/Dsl/Lookups.antt =====
-- What a key of the settings that a function of the DSL writes gives.
use alvis.Base.{
  String, ◌≡◌, refl, Bool, true, false, not, ◌&&◌, Option, none, some, List, [], ◌∷◌, arith,
}
use alvis.Base.{Eq, All, All-zip, ◌==◌, string_eq, if◌then◌else◌}
use alvis.Base.Dict.{Dict, lookup}
use alvis.Value.{Value}
use alvis.Dsl.{Setting, settings, is_kept, argument, name_of}

is_absent : String → List Setting → Bool
unfolding string_eq
is_absent key [] = true
is_absent key (s ∷ rest) = not (key == name_of s) && is_absent key rest

-- The names of the settings are different.
unfoldable pub distinct_names : List Setting → Bool
unfolding is_absent string_eq
distinct_names [] = true
distinct_names (s ∷ rest) = is_absent (name_of s) rest && distinct_names rest

-- The entry of a setting, if it is kept.
abbrev pub entry_of : Setting → Option Value
entry_of s = if is_kept s then some (argument s) else none

lookup-settings_absent :
    (key : String) (ss : List Setting) → is_absent key ss ≡ true → lookup key (settings ss) ≡ none
unfolding is_absent settings lookup string_eq
lookup-settings_absent key [] h = refl
lookup-settings_absent key (s ∷ rest) h = ground (arith, lookup-settings_absent key rest)

is_absent-All :
    (key : String) (ss : List Setting)
    → is_absent key ss ≡ true
    → All (λ s. (name_of s == key) ≡ false) ss
unfolding is_absent string_eq
is_absent-All key [] h = tt
is_absent-All key (s ∷ rest) h = (ground arith, is_absent-All key rest (ground arith))

lookup-settings_other :
    (s t : Setting) (rest : List Setting)
    → (name_of t == name_of s) ≡ false
    → lookup (name_of t) (settings rest) ≡ entry_of t
    → lookup (name_of t) (settings (s ∷ rest)) ≡ entry_of t
unfolding settings lookup string_eq
lookup-settings_other s t rest other h = ground arith

-- A key that is written first, if at all.
lookup-kept :
    {K V : Type 0} ⦃e : Eq K⦄ (k : K) (v : V) (kept : Bool) (d : Dict K V)
    → lookup k d ≡ none
    → lookup k (if kept then (k, v) ∷ d else d) ≡ (if kept then some v else none)
unfolding lookup
lookup-kept k v kept d h = ground arith

lookup-settings_own :
    (s : Setting) (rest : List Setting)
    → is_absent (name_of s) rest ≡ true
    → lookup (name_of s) (settings (s ∷ rest)) ≡ entry_of s
unfolding settings
lookup-settings_own s rest h =
    lookup-kept (name_of s) (argument s) (is_kept s) (settings rest)
      (lookup-settings_absent (name_of s) rest h)

pub lookup-settings :
    (ss : List Setting)
    → distinct_names ss ≡ true
    → All (λ s. lookup (name_of s) (settings ss) ≡ entry_of s) ss
unfolding distinct_names settings lookup string_eq
lookup-settings [] h = tt
lookup-settings (s ∷ rest) h =
    let absent : is_absent (name_of s) rest ≡ true = ground arith in
    (
      lookup-settings_own s rest absent,
      All-zip rest (λ t. lookup-settings_other s t rest) (is_absent-All (name_of s) rest absent)
          (lookup-settings rest (ground arith)),
    )
