-- ===== src/Base/Dict.antt =====
-- Python dicts in insertion order, as lists of entries.
use mathlib.Core.Path.{◌≡◌, refl}
use mathlib.Core.Logic.{◌≢◌, ◌↔◌, inl, inr}
use mathlib.Core.Bool.{Bool, true}
use mathlib.Core.Option.{Option, none, some}
use mathlib.Core.List.{List, [], ◌∷◌}
use native.Mathlib.Omega.{arith}
use alvis.Base.Equality.{Eq, ◌==◌}
use alvis.Base.Tests.{if◌then◌else◌, is_some, Option-cases}

abbrev pub Dict {ℓ κ} : Type ℓ → Type κ → Type (ℓ ⊔ κ)
Dict K V = List (K × V)

abbrev pub or_default {κ} : {V : Type κ} → V → Option V → V
or_default v none = v
or_default v (some w) = w

module _ {ℓ κ} {K : Type ℓ} {V : Type κ} where
  abbrev pub keys : Dict K V → List K
  keys [] = []
  keys ((k, v) ∷ d) = k ∷ keys d

  abbrev pub values : Dict K V → List V
  values [] = []
  values ((k, v) ∷ d) = v ∷ values d

  -- `{k: v for k, v in d.items() if keep(k, v)}`, and the loop that deletes all other keys
  unfoldable pub filter_items : (K → V → Bool) → Dict K V → Dict K V
  filter_items keep [] = []
  filter_items keep ((k, v) ∷ d) =
      let rest = filter_items keep d in if keep k v then (k, v) ∷ rest else rest

module _ {ℓ κ} {K : Type ℓ} {V : Type κ} ⦃e : Eq K⦄ where
  -- `d.get(k)`
  unfoldable pub lookup : K → Dict K V → Option V
  lookup k [] = none
  lookup k ((j, v) ∷ d) = if k == j then some v else lookup k d

  -- `d[k] = v`
  unfoldable pub insert : K → V → Dict K V → Dict K V
  insert k v [] = (k, v) ∷ []
  insert k v ((j, w) ∷ d) = if k == j then (k, v) ∷ d else (j, w) ∷ insert k v d

  -- `d.setdefault(k, v)`
  unfoldable pub set_default : K → V → Dict K V → Dict K V
  unfolding lookup insert
  set_default k v d = if is_some (lookup k d) then d else insert k v d

  -- `{**d, **e}`: the entries of `e` are stored over those of `d`.
  unfoldable pub merge : Dict K V → Dict K V → Dict K V
  unfolding insert
  merge d [] = d
  merge d ((k, v) ∷ e) = merge (insert k v d) e

  abbrev pub NodupKeys : Dict K V → Type κ
  NodupKeys [] = Unit
  NodupKeys ((k, _) ∷ d) = (lookup k d ≡ none) × NodupKeys d

  pub lookup-insert :
      (j k : K) (v : V) (d : Dict K V)
      → lookup j (insert k v d) ≡ (if j == k then some v else lookup j d)
  unfolding insert lookup
  lookup-insert j k v [] = ground arith
  lookup-insert j k v ((i, w) ∷ d) = ground (arith, lookup-insert j k v d)

  pub lookup-insert_self : (k : K) (v : V) (d : Dict K V) → lookup k (insert k v d) ≡ some v
  lookup-insert_self k v d = ground (arith, lookup-insert k k v d)

  pub lookup-insert_ne :
      (j k : K) (v : V) (d : Dict K V) → j ≢ k → lookup j (insert k v d) ≡ lookup j d
  lookup-insert_ne j k v d h = ground (arith, lookup-insert j k v d)

  pub lookup-set_default :
      (j k : K) (v : V) (d : Dict K V)
      → lookup j (set_default k v d)
        ≡ (if j == k then some (or_default v (lookup k d)) else lookup j d)
  unfolding set_default
  lookup-set_default j k v d = elim (Option-cases (lookup k d)) [
    | inl e ↦ rw e (lookup-insert j k v d)
    | inr (w, e) ↦ rw e (ground (arith, e))
  ]

  pub insert-NodupKeys : (k : K) (v : V) (d : Dict K V) → NodupKeys d → NodupKeys (insert k v d)
  unfolding insert lookup
  insert-NodupKeys k v [] h = (refl, tt)
  insert-NodupKeys k v ((j, w) ∷ d) (fresh, u) =
      ground (arith, insert-NodupKeys k v d u, lookup-insert j k v d)

  -- Storing a key's own value again changes nothing.
  pub insert_same : (k : K) (v : V) (d : Dict K V) → lookup k d ≡ some v → insert k v d ≡ d
  unfolding lookup insert
  insert_same k v [] h = cc
  insert_same k v ((j, w) ∷ d) h = ground (arith, insert_same k v d)

  pub insert-insert : (k : K) (v w : V) (d : Dict K V) → insert k w (insert k v d) ≡ insert k w d
  unfolding insert
  insert-insert k v w [] = ground arith
  insert-insert k v w ((j, u) ∷ d) = ground (arith, insert-insert k v w d)

  pub lookup-filter_items_absent :
      (keep : K → V → Bool) (k : K) (d : Dict K V)
      → lookup k d ≡ none
      → lookup k (filter_items keep d) ≡ none
  unfolding lookup filter_items
  lookup-filter_items_absent keep k [] h = refl
  lookup-filter_items_absent keep k ((j, v) ∷ d) h =
      ground (arith, lookup-filter_items_absent keep k d)

  abbrev pub kept : (K → V → Bool) → K → Option V → Option V
  kept keep k none = none
  kept keep k (some v) = if keep k v then some v else none

  pub lookup-filter_items :
      (keep : K → V → Bool) (k : K) (d : Dict K V)
      → NodupKeys d
      → lookup k (filter_items keep d) ≡ kept keep k (lookup k d)
  unfolding lookup filter_items
  lookup-filter_items keep k [] h = refl
  lookup-filter_items keep k ((j, v) ∷ d) (fresh, u) =
      ground (arith, lookup-filter_items keep k d u, lookup-filter_items_absent keep j d fresh)

  pub filter_items-NodupKeys :
      (keep : K → V → Bool) (d : Dict K V) → NodupKeys d → NodupKeys (filter_items keep d)
  unfolding filter_items
  filter_items-NodupKeys keep [] h = tt
  filter_items-NodupKeys keep ((j, v) ∷ d) (fresh, u) =
      ground (arith, filter_items-NodupKeys keep d u, lookup-filter_items_absent keep j d fresh)

  kept_iff :
      (keep : K → V → Bool) (k : K) (o : Option V) (v : V)
      → (kept keep k o ≡ some v) ↔ ((o ≡ some v) × (keep k v ≡ true))
  kept_iff keep k none v = (λ h. cc, λ t. t.0)
  kept_iff keep k (some w) v = (λ h. ground arith, λ t. ground arith)

  pub lookup-filter_items_iff :
      (keep : K → V → Bool) (k : K) (d : Dict K V) (v : V)
      → NodupKeys d
      → (lookup k (filter_items keep d) ≡ some v) ↔ ((lookup k d ≡ some v) × (keep k v ≡ true))
  lookup-filter_items_iff keep k d v u = rw (lookup-filter_items keep k d u) (kept_iff keep k _ v)
