-- ===== src/Dsl/Received.antt =====
-- What a class receives of the arguments of a function of the DSL, through its configuration.
use alvis.Base.{
  String, ◌≡◌, refl, ap, sym, ◌∙◌, Bool, true, false, not, ◌&&◌, ◌||◌, Option, none, some, [], ◌∷◌,
  arith,
}
use mathlib.Core.Path.{subst}
use alvis.Base.{ℕ, inl, inr, List, All, eqb, Bool-cases, ◌==◌, ==→eq, string_eq, if◌then◌else◌}
use alvis.Base.Dict.{lookup}
use alvis.Value.{Value, null, flag, num, text, or_null}
use alvis.Config.{Settings}
use alvis.Factories.{Signature, capped, is_present}
use alvis.Factories.Passing.{is_bare, passed, lookup-passed, lookup-passed_cap}
use alvis.Dsl.{
  Setting, always, unless_text, unless_num, unless_true, if_flag, if_text, if_items, if_given,
  is_kept, argument, name_of, is_true, true_text, true_items,
}
use alvis.Dsl.Lookups.{entry_of}

abbrev pub value_or : Value → Option Value → Value
value_or default none = default
value_or default (some v) = v

-- The value of a keyword argument of a class: what it is called with, or its default.
abbrev pub received : Settings → Settings → String → Value
received defaults args name = value_or (or_null (lookup name defaults)) (lookup name args)

-- What the class should receive: the argument, and the engine's cap where none is given.
unfoldable pub expected : Option Value → Setting → Value
unfolding argument string_eq
expected max_bytes (if_given key o) =
    if key == "max_bytes" && not (is_present o) then or_null max_bytes else or_null o
expected max_bytes s = argument s

-- The value for which a setting is left out.
unfoldable pub left_out_for : Setting → Value
left_out_for (unless_text key default s) = text default
left_out_for (unless_num key default n) = num default
left_out_for (unless_true key v) = flag true
left_out_for (if_flag key b) = flag false
left_out_for _ = null

left_out_lem : (s : Setting) → is_kept s ≡ false → argument s ≡ left_out_for s
unfolding is_kept argument left_out_for is_true true_text true_items
left_out_lem (always key v) h = absurd cc
left_out_lem (unless_text key default s) h = ground arith
left_out_lem (unless_num key default n) h = ground arith
left_out_lem (unless_true key (flag true)) h = refl
left_out_lem (unless_true key v) h = absurd cc
left_out_lem (if_flag key b) h = ground arith
left_out_lem (if_text key none) h = refl
left_out_lem (if_text key (some s)) h = ground arith
left_out_lem (if_items key none) h = refl
left_out_lem (if_items key (some [])) h = refl
left_out_lem (if_items key (some (s ∷ xs))) h = absurd cc
left_out_lem (if_given key none) h = refl
left_out_lem (if_given key (some v)) h = absurd cc

abbrev pub is_capped : Signature → Bool
is_capped capped = true
is_capped _ = false

is_given : Setting → Bool
is_given (if_given key o) = true
is_given _ = false

-- The settings that a class with the signature can receive; a cap if it takes one.
unfoldable pub can_receive : Signature → Setting → Bool
unfolding is_given string_eq
can_receive signature s =
    not (is_bare signature)
    && (not (name_of s == "acl")
        && (not (name_of s == "max_bytes") || (is_given s && is_capped signature)))

-- The class has the default for which the setting is left out.
abbrev pub Agrees : Signature → Settings → Setting → Type 0
Agrees signature defaults s =
    (can_receive signature s ≡ true) × (or_null (lookup (name_of s) defaults) ≡ left_out_for s)

pub eqb→eq : (m n : ℕ) → eqb m n ≡ true → m ≡ n
eqb→eq m n h = ground arith

both_true : (a b : Bool) → (a && b) ≡ true → (a ≡ true) × (b ≡ true)
both_true a b h = ground arith

same_default : Value → Value → Bool
unfolding string_eq
same_default null null = true
same_default (flag true) (flag true) = true
same_default (flag false) (flag false) = true
same_default (num m) (num n) = eqb m n
same_default (text s) (text t) = s == t
same_default _ _ = false

same_default-eq : (v w : Value) → same_default v w ≡ true → v ≡ w
unfolding same_default
same_default-eq null null h = refl
same_default-eq (flag true) (flag true) h = refl
same_default-eq (flag false) (flag false) h = refl
same_default-eq (num m) (num n) h = ap num (eqb→eq m n h)
same_default-eq (text s) (text t) h = ap text (==→eq s t h)
same_default-eq _ _ h = absurd (ground arith)

-- `Agrees` of all the settings, as a test.
unfoldable pub all_agree : Signature → Settings → List Setting → Bool
unfolding can_receive left_out_for same_default lookup
all_agree signature defaults [] = true
all_agree signature defaults (s ∷ rest) =
    (can_receive signature s
      && same_default (or_null (lookup (name_of s) defaults)) (left_out_for s))
    && all_agree signature defaults rest

pub all_agree-All :
    (signature : Signature) (defaults : Settings) (ss : List Setting)
    → all_agree signature defaults ss ≡ true
    → All (Agrees signature defaults) ss
unfolding all_agree
all_agree-All signature defaults [] h = tt
all_agree-All signature defaults (s ∷ rest) h =
    let (own, later) = both_true _ _ h in
    let (fits, same) = both_true _ _ own in
    ((fits, same_default-eq _ _ same), all_agree-All signature defaults rest later)

expected_other :
    (max_bytes : Option Value) (s : Setting)
    → (name_of s == "max_bytes") ≡ false
    → expected max_bytes s ≡ argument s
unfolding expected argument
expected_other max_bytes (always key v) h = refl
expected_other max_bytes (unless_text key default s) h = refl
expected_other max_bytes (unless_num key default n) h = refl
expected_other max_bytes (unless_true key v) h = refl
expected_other max_bytes (if_flag key b) h = refl
expected_other max_bytes (if_text key o) h = refl
expected_other max_bytes (if_items key o) h = refl
expected_other max_bytes (if_given key o) h = rw h refl

three_tests :
    (a b c : Bool) → (not a && (not b && c)) ≡ true → (a ≡ false) × ((b ≡ false) × (c ≡ true))
three_tests a b c h = ground arith

-- What an entry of the settings leads to.
received_entry :
    (defaults args : Settings) (s : Setting)
    → lookup (name_of s) args ≡ entry_of s
    → or_null (lookup (name_of s) defaults) ≡ left_out_for s
    → received defaults args (name_of s) ≡ argument s
received_entry defaults args s h same = elim (Bool-cases (is_kept s)) [
  | inl kept ↦ rw (h, kept) refl
  | inr left ↦ rw (h, left) (same ∙ sym (left_out_lem s left))
]

if_not : (b : Bool) (x y : Value) → (if b then x else y) ≡ (if not b then y else x)
if_not b x y = ground arith

entry_given : (key : String) (o : Option Value) → entry_of (if_given key o) ≡ o
unfolding is_kept argument
entry_given key none = refl
entry_given key (some v) = refl

received_max_bytes :
    (defaults config : Settings) (max_bytes o : Option Value)
    → lookup "max_bytes" config ≡ o
    → received defaults (passed capped config max_bytes) "max_bytes"
      ≡ expected max_bytes (if_given "max_bytes" o)
unfolding expected string_eq
received_max_bytes defaults config max_bytes o h =
    ap (value_or (or_null (lookup "max_bytes" defaults))) (
      lookup-passed_cap config max_bytes
      ∙ ap (λ v. some (if is_present v then or_null v else or_null max_bytes)) h)
    ∙ if_not (is_present o) (or_null o) (or_null max_bytes)

-- The cap, where the class takes one.
received_cap :
    (signature : Signature) (defaults config : Settings) (max_bytes : Option Value) (s : Setting)
    → (name_of s == "max_bytes") ≡ true
    → (is_given s && is_capped signature) ≡ true
    → lookup (name_of s) config ≡ entry_of s
    → received defaults (passed signature config max_bytes) (name_of s) ≡ expected max_bytes s
unfolding is_given
received_cap capped defaults config max_bytes (if_given key o) is_cap h e =
    subst
      (λ k.
        lookup k config ≡ o
        → received defaults (passed capped config max_bytes) k ≡ expected max_bytes (if_given k o))
      (sym (==→eq key "max_bytes" is_cap)) (received_max_bytes defaults config max_bytes o)
      (e ∙ entry_given key o)
received_cap _ defaults config max_bytes s is_cap h e = absurd (ground arith)

implied : (a b : Bool) → a ≡ true → (not a || b) ≡ true → b ≡ true
implied a b h k = ground arith

pub received_setting :
    (signature : Signature) (defaults config : Settings) (max_bytes : Option Value) (s : Setting)
    → Agrees signature defaults s
    → lookup (name_of s) config ≡ entry_of s
    → received defaults (passed signature config max_bytes) (name_of s) ≡ expected max_bytes s
unfolding can_receive
received_setting signature defaults config max_bytes s (fits, same) e =
    let (no_bare, (no_acl, cap)) = three_tests _ _ _ fits in
    elim (Bool-cases (name_of s == "max_bytes")) [
      | inl is_cap ↦
          received_cap signature defaults config max_bytes s is_cap (implied _ _ is_cap cap) e
      | inr other ↦
          received_entry defaults (passed signature config max_bytes) s
            (lookup-passed signature (name_of s) config max_bytes no_bare other no_acl ∙ e) same
          ∙ sym (expected_other max_bytes s other)
    ]
