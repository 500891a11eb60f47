-- ===== src/Base/Sort/Entries.antt =====
-- The entries of a dict, sorted by their values: the same lookups, and each key once.
use mathlib.Core.Path.{◌≡◌, refl, ap, ◌∙◌}
use mathlib.Core.Bool.{Bool}
use mathlib.Core.Option.{none, some}
use mathlib.Core.List.{[], ◌∷◌}
use native.Mathlib.Omega.{arith}
use alvis.Base.Equality.{Eq, ◌==◌}
use alvis.Base.Tests.{if◌then◌else◌}
use alvis.Base.Dict.{Dict, lookup, NodupKeys}
use alvis.Base.Sort.{insert_desc, sort_desc}

module _ {ℓ κ} {K : Type ℓ} {F : Type κ} ⦃e : Eq K⦄ (lt : F → F → Bool) where
  lookup-insert_desc :
      (k j : K) (v : F) (d : Dict K F)
      → lookup j d ≡ none
      → lookup k (insert_desc lt (λ (t : K × F). t.1) (j, v) d)
        ≡ (if k == j then some v else lookup k d)
  unfolding lookup insert_desc
  lookup-insert_desc k j v [] h = refl
  lookup-insert_desc k j v ((i, w) ∷ d) h = ground (arith, h, lookup-insert_desc k j v d)

  insert_desc-NodupKeys :
      (j : K) (v : F) (d : Dict K F)
      → lookup j d ≡ none
      → NodupKeys d
      → NodupKeys (insert_desc lt (λ (t : K × F). t.1) (j, v) d)
  unfolding lookup insert_desc
  insert_desc-NodupKeys j v [] h u = (refl, tt)
  insert_desc-NodupKeys j v ((i, w) ∷ d) h u =
      ground (arith, h, u, insert_desc-NodupKeys j v d, lookup-insert_desc i j v d)

  sorted_entries :
      (k : K) (d : Dict K F)
      → NodupKeys d
      → (lookup k (sort_desc lt (λ (t : K × F). t.1) d) ≡ lookup k d)
        × NodupKeys (sort_desc lt (λ (t : K × F). t.1) d)
  unfolding lookup sort_desc
  sorted_entries k [] u = (refl, tt)
  sorted_entries k ((j, v) ∷ d) u =
      let later = sort_desc lt (λ (t : K × F). t.1) d in
      let fresh : lookup j later ≡ none = (sorted_entries j d u.1).0 ∙ u.0 in
      let (same, once) = sorted_entries k d u.1 in
      (
        lookup-insert_desc k j v later fresh ∙ ap (λ o. if k == j then some v else o) same,
        insert_desc-NodupKeys j v later fresh once,
      )

  -- Sorting the entries changes no lookup, and keeps each key once.
  pub lookup-sort_desc :
      (k : K) (d : Dict K F)
      → NodupKeys d
      → lookup k (sort_desc lt (λ (t : K × F). t.1) d) ≡ lookup k d
  lookup-sort_desc k d u = (sorted_entries k d u).0

  pub sort_desc-NodupKeys :
      (d : Dict K F) → NodupKeys d → NodupKeys (sort_desc lt (λ (t : K × F). t.1) d)
  unfolding sort_desc
  sort_desc-NodupKeys [] u = tt
  sort_desc-NodupKeys ((j, v) ∷ d) u = (sorted_entries j ((j, v) ∷ d) u).1
