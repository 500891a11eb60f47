-- ===== src/Environment/Loading.antt =====
-- What load_dotenv leaves in the environment.
use alvis.Base.{
  String, ◌≡◌, refl, ap, sym, ◌∙◌, inl, inr, Bool, true, false, Option, none, some, List, [], ◌∷◌,
  arith,
}
use alvis.Base.{◌==◌, string_eq, is_some, Option-cases, if◌then◌else◌}
use alvis.Base.Dict.{Dict, lookup, lookup-insert}
use alvis.Text.{Text}
use alvis.Text.Lines.{splitlines}
use alvis.Environment.{parse_lines, load_entry, load_entries, load_dotenv}

-- The entries of the file, in the order of its lines; a lookup gives the first of a name.
abbrev pub entries : Option Text → List (String × String)
entries none = []
entries (some content) = parse_lines (splitlines content)

abbrev pub or_else : Option String → Option String → Option String
or_else none o = o
or_else (some v) o = some v

load_entry_environ :
    (key name value : String) (loaded environ : Dict String String)
    → lookup key (load_entry (name, value) (loaded, environ)).1
      ≡ or_else (lookup key environ) (lookup key ((name, value) ∷ []))
unfolding load_entry lookup
load_entry_environ key name value loaded environ =
    ground (arith, lookup-insert key name value environ)

-- What is loaded is in the environment.
abbrev IsPart : Dict String String × Dict String String → Type 0
IsPart (loaded, environ) = (key : String) → lookup key environ ≡ none → lookup key loaded ≡ none

load_entry-IsPart :
    (name value : String) (loaded environ : Dict String String)
    → IsPart (loaded, environ)
    → IsPart (load_entry (name, value) (loaded, environ))
unfolding load_entry
load_entry-IsPart name value loaded environ part key h =
    ground
      (arith, lookup-insert key name value environ, lookup-insert key name value loaded, part key)

load_entry_loaded :
    (key name value : String) (loaded environ : Dict String String)
    → IsPart (loaded, environ)
    → lookup key (load_entry (name, value) (loaded, environ)).0 ≡ (
        if is_some (lookup key environ) then lookup key loaded else lookup key ((name, value) ∷ []))
unfolding load_entry lookup
load_entry_loaded key name value loaded environ part =
    ground (arith, lookup-insert key name value loaded, part key)

first_entry :
    (old : Option String) (own : Bool) (value : String) (rest : Option String)
    → or_else (or_else old (if own then some value else none)) rest
      ≡ or_else old (if own then some value else rest)
first_entry none true value rest = refl
first_entry none false value rest = refl
first_entry (some v) own value rest = refl

first_loaded :
    (old loaded : Option String) (own : Bool) (value : String) (rest : Option String)
    → (if is_some (or_else old (if own then some value else none))
        then if is_some old then loaded else if own then some value else none
        else rest)
      ≡ (if is_some old then loaded else if own then some value else rest)
first_loaded none loaded true value rest = refl
first_loaded none loaded false value rest = refl
first_loaded (some v) loaded own value rest = refl

-- One step and the others: of the names that are not set, the first entry counts.
load_entries_lem :
    (key : String) (es : List (String × String)) (state : Dict String String × Dict String String)
    → IsPart state
    → (lookup key (load_entries es state).1 ≡ or_else (lookup key state.1) (lookup key es))
      × (lookup key (load_entries es state).0
          ≡ (if is_some (lookup key state.1) then lookup key state.0 else lookup key es))
unfolding load_entries lookup
load_entries_lem key [] (loaded, environ) part = ground (arith, part key)
load_entries_lem key ((name, value) ∷ es) (loaded, environ) part =
    let (p, q) =
      load_entries_lem key es (load_entry (name, value) (loaded, environ))
        (load_entry-IsPart name value loaded environ part) in
    (
      p
          ∙ ap (λ o. or_else o (lookup key es)) (load_entry_environ key name value loaded environ)
          ∙ first_entry (lookup key environ) (key == name) value (lookup key es),
      q
          ∙ rw
              (
                load_entry_environ key name value loaded environ,
                load_entry_loaded key name value loaded environ part,
              )
              (first_loaded (lookup key environ) (lookup key loaded) (key == name) value
                (lookup key es)),
    )

-- A variable that is set is passed over.
load_entry_set :
    (name value v : String) (loaded environ : Dict String String)
    → lookup name environ ≡ some v
    → load_entry (name, value) (loaded, environ) ≡ (loaded, environ)
unfolding load_entry
load_entry_set name value v loaded environ h = rw h refl

own_entry :
    (name value : String) (es : List (String × String))
    → lookup name ((name, value) ∷ es) ≡ none
    → ⊥
unfolding lookup
own_entry name value es h = ground arith

later_entry :
    (key name value : String) (es : List (String × String))
    → lookup key ((name, value) ∷ es) ≡ none
    → lookup key es ≡ none
unfolding lookup
later_entry key name value es h = ground arith

load_entries_again :
    (es : List (String × String)) (loaded environ : Dict String String)
    → ((key : String) → lookup key environ ≡ none → lookup key es ≡ none)
    → load_entries es (loaded, environ) ≡ (loaded, environ)
unfolding load_entries
load_entries_again [] loaded environ h = refl
load_entries_again ((name, value) ∷ es) loaded environ h =
    elim (Option-cases (lookup name environ)) [
      | inl e ↦ absurd (own_entry name value es (h name e))
      | inr (v, e) ↦
          ap (load_entries es) (load_entry_set name value v loaded environ e)
          ∙ load_entries_again es loaded environ (λ key p. later_entry key name value es (h key p))
    ]

absent_entry : (o r : Option String) → or_else o r ≡ none → r ≡ none
absent_entry none r h = h
absent_entry (some v) r h = absurd cc

-- After load_dotenv each variable has its old value, or else the value of its first entry in the file;
-- the entries of the variables that were not set are what it returns, and loading the file again
-- returns nothing and changes nothing.
pub load_dotenv_lem :
    (file : Option Text) (environ : Dict String String) (key : String)
    → let (loaded, environ') = load_dotenv file environ in
      (lookup key environ' ≡ or_else (lookup key environ) (lookup key (entries file)))
      × (lookup key loaded
          ≡ (if is_some (lookup key environ) then none else lookup key (entries file)))
      × (load_dotenv file environ' ≡ ([], environ'))
unfolding load_dotenv lookup
load_dotenv_lem none environ key = (ground arith, ground arith, refl)
load_dotenv_lem (some content) environ key =
    let es = parse_lines (splitlines content) in
    let (p, q) = load_entries_lem key es ([], environ) (λ k h. refl) in
    (
      p,
      q,
      load_entries_again es [] (load_entries es ([], environ)).1 (λ k h.
          absent_entry (lookup k environ) (lookup k es)
            (sym (load_entries_lem k es ([], environ) (λ j e. refl)).0 ∙ h)),
    )
