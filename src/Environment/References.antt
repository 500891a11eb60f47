-- ===== src/Environment/References.antt =====
-- The names of secrets that missing_env reports.
use alvis.Base.{
  String, ◌≡◌, refl, ap, sym, ◌∙◌, ◌↔◌, ◌≢◌, inl, inr, ◌⊎◌, Bool, true, false, not, ◌&&◌, ◌||◌,
  List, [], ◌∷◌, ◌++◌, arith,
}
use alvis.Base.{Eq, ◌==◌, string_eq, contains, contains-append, if◌then◌else◌}
use mathlib.Core.Path.{subst}
use alvis.Base.Dict.{Dict, lookup}
use alvis.Base.Sort.Members.{contains-sort_desc}
use alvis.Value.{Value, text, seq, obj, Items, nil, cons, Fields, end, field}
use alvis.Text.{to_list}
use alvis.Config.{PipelineConfig}
use alvis.Environment.{
  ends_env, own_refs, env_refs, item_refs, field_refs, model_dump, is_unset, unset_names,
  first_time, missing_env,
}

-- A value mentions the texts of the keys that end in `_env`, in its dicts at every depth.
mutual
  pub data Mentions : String → Value → Type 0 where
    in_items : (name : String) (xs : Items) → MentionedIn name xs → Mentions name (seq xs)
    in_fields : (name : String) (fs : Fields) → MentionedBy name fs → Mentions name (obj fs)

  pub data MentionedIn : String → Items → Type 0 where
    first_item :
        (name : String) (v : Value) (xs : Items) → Mentions name v → MentionedIn name (cons v xs)
    later_item :
        (name : String) (v : Value) (xs : Items)
        → MentionedIn name xs
        → MentionedIn name (cons v xs)

  pub data MentionedBy : String → Fields → Type 0 where
    own_field :
        (name key : String) (fs : Fields)
        → ends_env (to_list key) ≡ true
        → name ≢ ""
        → MentionedBy name (field key (text name) fs)
    inside_field :
        (name key : String) (v : Value) (fs : Fields)
        → Mentions name v
        → MentionedBy name (field key v fs)
    later_field :
        (name key : String) (v : Value) (fs : Fields)
        → MentionedBy name fs
        → MentionedBy name (field key v fs)

-- What the guarded singleton of a name contains.
kept→eq :
    {A : Type 0} ⦃e : Eq A⦄ (a t z : A) (b : Bool)
    → contains a (if b && not (t == z) then t ∷ [] else []) ≡ true
    → (t ≡ a) × ((b ≡ true) × (a ≢ z))
kept→eq a t z b h = ground arith

contains-kept :
    {A : Type 0} ⦃e : Eq A⦄ (a z : A) (b : Bool)
    → b ≡ true
    → a ≢ z
    → contains a (if b && not (a == z) then a ∷ [] else []) ≡ true
contains-kept a z b h set = ground arith

own_refs→text :
    (name key : String) (v : Value)
    → contains name (own_refs key v) ≡ true
    → (v ≡ text name) × ((ends_env (to_list key) ≡ true) × (name ≢ ""))
unfolding own_refs
own_refs→text name key (text t) h =
    let (e, rest) = kept→eq name t "" (ends_env (to_list key)) h in (ap text e, rest)
own_refs→text name key v h = absurd cc

own_refs_lem :
    (name key : String)
    → ends_env (to_list key) ≡ true
    → name ≢ ""
    → contains name (own_refs key (text name)) ≡ true
unfolding own_refs
own_refs_lem name key h set = contains-kept name "" _ h set

or_true : (a b : Bool) → (a || b) ≡ true → (a ≡ true) ⊎ (b ≡ true)
or_true true b h = inl refl
or_true false b h = inr h

or_left : (a b : Bool) → a ≡ true → (a || b) ≡ true
or_left a b h = ground arith

or_right : (a b : Bool) → b ≡ true → (a || b) ≡ true
or_right a b h = ground arith

in_append :
    (name : String) (xs ys : List String)
    → contains name (xs ++ ys) ≡ true
    → (contains name xs ≡ true) ⊎ (contains name ys ≡ true)
in_append name xs ys h = or_true _ _ (sym (contains-append name xs ys) ∙ h)

in_left :
    (name : String) (xs ys : List String)
    → contains name xs ≡ true
    → contains name (xs ++ ys) ≡ true
in_left name xs ys h = contains-append name xs ys ∙ or_left _ _ h

in_right :
    (name : String) (xs ys : List String)
    → contains name ys ≡ true
    → contains name (xs ++ ys) ≡ true
in_right name xs ys h = contains-append name xs ys ∙ or_right _ _ h

mutual
  unfolding env_refs

  refs→Mentions : (name : String) (v : Value) → contains name (env_refs v) ≡ true → Mentions name v
  refs→Mentions name (seq xs) h = in_items name xs (refs→MentionedIn name xs h)
  refs→Mentions name (obj fs) h = in_fields name fs (refs→MentionedBy name fs h)
  refs→Mentions name _ h = absurd cc

  refs→MentionedIn :
      (name : String) (xs : Items) → contains name (item_refs xs) ≡ true → MentionedIn name xs
  refs→MentionedIn name nil h = absurd cc
  refs→MentionedIn name (cons v xs) h = elim (in_append name (env_refs v) (item_refs xs) h) [
    | inl p ↦ first_item name v xs (refs→Mentions name v p)
    | inr p ↦ later_item name v xs (refs→MentionedIn name xs p)
  ]

  refs→MentionedBy :
      (name : String) (fs : Fields) → contains name (field_refs fs) ≡ true → MentionedBy name fs
  refs→MentionedBy name end h = absurd cc
  refs→MentionedBy name (field key v fs) h =
      elim (in_append name (own_refs key v) (env_refs v ++ field_refs fs) h) [
        | inl p ↦
            let (e, (ends, set)) = own_refs→text name key v p in
            subst (λ x. MentionedBy name (field key x fs)) (sym e) (own_field name key fs ends set)
        | inr p ↦ elim (in_append name (env_refs v) (field_refs fs) p) [
          | inl q ↦ inside_field name key v fs (refs→Mentions name v q)
          | inr q ↦ later_field name key v fs (refs→MentionedBy name fs q)
        ]
      ]

mutual
  unfolding env_refs

  Mentions→refs : (name : String) (v : Value) → Mentions name v → contains name (env_refs v) ≡ true
  Mentions→refs name _ (in_items _ xs m) = MentionedIn→refs name xs m
  Mentions→refs name _ (in_fields _ fs m) = MentionedBy→refs name fs m

  MentionedIn→refs :
      (name : String) (xs : Items) → MentionedIn name xs → contains name (item_refs xs) ≡ true
  MentionedIn→refs name _ (first_item _ v xs m) =
      in_left name (env_refs v) (item_refs xs) (Mentions→refs name v m)
  MentionedIn→refs name _ (later_item _ v xs m) =
      in_right name (env_refs v) (item_refs xs) (MentionedIn→refs name xs m)

  MentionedBy→refs :
      (name : String) (fs : Fields) → MentionedBy name fs → contains name (field_refs fs) ≡ true
  MentionedBy→refs name _ (own_field _ key fs ends set) =
      in_left name (own_refs key (text name)) _ (own_refs_lem name key ends set)
  MentionedBy→refs name _ (inside_field _ key v fs m) =
      in_right name (own_refs key v) _
        (in_left name (env_refs v) (field_refs fs) (Mentions→refs name v m))
  MentionedBy→refs name _ (later_field _ key v fs m) =
      in_right name (own_refs key v) _
        (in_right name (env_refs v) (field_refs fs) (MentionedBy→refs name fs m))

contains-first_time :
    (a name : String) (names : List String)
    → contains a (first_time name names) ≡ (a == name || contains a names)
unfolding first_time
contains-first_time a name names = ground arith

contains-unset_names :
    (environ : Dict String String) (a : String) (names : List String)
    → contains a (unset_names environ names) ≡ (contains a names && is_unset (lookup a environ))
unfolding unset_names
contains-unset_names environ a [] = refl
contains-unset_names environ a (name ∷ names) = ground (
  arith,
  contains-first_time a name (unset_names environ names),
  contains-unset_names environ a names,
)

both_true : (a b : Bool) → (a && b) ≡ true → (a ≡ true) × (b ≡ true)
both_true a b h = ground arith

and_true : (a b : Bool) → a ≡ true → b ≡ true → (a && b) ≡ true
and_true a b h k = ground arith

contains-missing :
    (environ : Dict String String) (c : PipelineConfig) (name : String)
    → contains name (missing_env environ c)
      ≡ (contains name (env_refs (model_dump c)) && is_unset (lookup name environ))
unfolding missing_env
contains-missing environ c name =
    contains-sort_desc _ (λ n. n) name (unset_names environ (env_refs (model_dump c)))
    ∙ contains-unset_names environ name (env_refs (model_dump c))

-- missing_env reports exactly the names that a key that ends in `_env` holds somewhere in the
-- configuration, in a dict at any depth, and that the environment leaves unset or empty.
pub missing_env_iff :
    (environ : Dict String String) (c : PipelineConfig) (name : String)
    → (contains name (missing_env environ c) ≡ true)
      ↔ (Mentions name (model_dump c) × (is_unset (lookup name environ) ≡ true))
missing_env_iff environ c name =
    let listed = contains-missing environ c name in
    (
      λ h. let (m, u) = both_true _ _ (sym listed ∙ h) in (refs→Mentions name (model_dump c) m, u),
      λ (m, u). listed ∙ and_true _ _ (Mentions→refs name (model_dump c) m) u,
    )
