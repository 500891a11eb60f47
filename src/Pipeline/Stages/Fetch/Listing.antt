-- ===== src/Pipeline/Stages/Fetch/Listing.antt =====
-- Which documents the scan of a listing skips and which it wants.
use alvis.Base.{
  String, ◌≡◌, ap, sym, ◌∙◌, ◌⊎◌, inl, inr, true, Option, none, some, List, [], ◌∷◌, ◌++◌, arith,
}
use alvis.Base.{◌==◌, string_eq, contains, All, Bool-cases, Option-cases, ==_refl, ==→eq}
use mathlib.Core.Option.{some-injective, none-ne-some}
use alvis.Base.Dict.{Dict, lookup, insert, lookup-insert, lookup-insert_self}
use alvis.Models.{Artifact, DocumentMeta}
use alvis.DocStore.{DocStore, DocEntry, entry}
use alvis.Pipeline.Context.{Adapters, RunContext}
use alvis.Pipeline.Stages.Fetch.{scan, note_meta, listed_alike, add_to_set, same_fingerprint}

abbrev pub uris_of : List Artifact → List String
uris_of [] = []
uris_of (x ∷ xs) = x.uri ∷ uris_of xs

-- The table of a listing holds the meta under its uri.
abbrev pub InTable : Dict String DocumentMeta → DocumentMeta → Type 0
InTable table m = lookup m.uri table ≡ some m

-- The run has noted the document with its fingerprint from the listing.
abbrev pub HasEntry : {V I : Type 0} → RunContext V I → DocumentMeta → Type 0
HasEntry ctx m =
    (e : DocEntry) × (lookup m.uri ctx.entries ≡ some e) × (e.listing ≡ some m.fingerprint)

same_meta :
    (table : Dict String DocumentMeta) (m m' : DocumentMeta)
    → InTable table m
    → InTable table m'
    → m.uri ≡ m'.uri
    → m ≡ m'
same_meta table m m' t t' e = some-injective _ _ (sym t ∙ ap (λ u. lookup u table) e ∙ t')

same_fingerprint-eq : (o : Option String) (f : String) → same_fingerprint o f ≡ true → o ≡ some f
unfolding same_fingerprint
same_fingerprint-eq none f h = cc
same_fingerprint-eq (some g) f h = ground arith

listed_alike-fingerprint :
    (o : Option DocEntry) (m : DocumentMeta) (stored : DocEntry)
    → listed_alike o m ≡ some stored
    → stored.listing ≡ some m.fingerprint
unfolding listed_alike
listed_alike-fingerprint none m stored h = cc
listed_alike-fingerprint (some e) m stored h =
    elim (Bool-cases (same_fingerprint e.listing m.fingerprint)) [
      | inl alike ↦
          let same : e ≡ stored = some-injective e stored (rw alike at h) in
          rw (← same) (same_fingerprint-eq e.listing m.fingerprint alike)
      | inr other ↦ absurd (none-ne-some stored (rw other at h))
    ]

contains-append :
    (a : String) (xs ys : List String) → contains a xs ≡ true → contains a (xs ++ ys) ≡ true
contains-append a [] ys h = cc
contains-append a (x ∷ xs) ys h = ground (arith, contains-append a xs ys)

contains-append_last : (a : String) (xs : List String) → contains a (xs ++ a ∷ []) ≡ true
contains-append_last a [] = ground (arith, ==_refl a)
contains-append_last a (x ∷ xs) = ground (arith, contains-append_last a xs)

contains-add_to_set :
    (a u : String) (wanted : List String)
    → contains a wanted ≡ true
    → contains a (add_to_set u wanted) ≡ true
unfolding add_to_set
contains-add_to_set a u wanted h = ground (arith, contains-append a wanted (u ∷ []))

contains-add_to_set_self :
    (u : String) (wanted : List String) → contains u (add_to_set u wanted) ≡ true
unfolding add_to_set
contains-add_to_set_self u wanted = ground (arith, contains-append_last u wanted)

module _ {V I : Type 0} (a : Adapters V I) where
  -- A listed document is noted or wanted.
  abbrev pub Seen : List String → RunContext V I → DocumentMeta → Type 0
  Seen wanted ctx m = HasEntry ctx m ⊎ (contains m.uri wanted ≡ true)

  note_meta_self :
      (m : DocumentMeta) (o : Option DocEntry) (wanted : List String) (ctx : RunContext V I)
      → let t = note_meta a m (listed_alike o m) wanted ctx in Seen t.0 t.1 m
  unfolding note_meta
  note_meta_self m o wanted ctx = elim (Option-cases (listed_alike o m)) [
    | inl e ↦ rw e (inr (contains-add_to_set_self m.uri wanted))
    | inr (stored, e) ↦ rw e (
        inl (
          stored,
          lookup-insert_self m.uri stored ctx.entries,
          listed_alike-fingerprint o m stored e,
        ))
  ]

  module _ (table : Dict String DocumentMeta) where
    kept_entry :
        (m m' : DocumentMeta) (stored : DocEntry) (entries : Dict String DocEntry)
        → InTable table m
        → InTable table m'
        → stored.listing ≡ some m'.fingerprint
        → ((e : DocEntry) × (lookup m.uri entries ≡ some e) × (e.listing ≡ some m.fingerprint))
        → (e : DocEntry) × (lookup m.uri (insert m'.uri stored entries) ≡ some e)
          × (e.listing ≡ some m.fingerprint)
    kept_entry m m' stored entries t t' f (e, p, q) = elim (Bool-cases (m.uri == m'.uri)) [
      | inl same ↦
          let these : m ≡ m' = same_meta table m m' t t' (==→eq m.uri m'.uri same) in
          (
            stored,
            lookup-insert m.uri m'.uri stored entries ∙ rw same,
            f ∙ ap (λ (x : DocumentMeta). some x.fingerprint) (sym these),
          )
      | inr other ↦ (e, lookup-insert m.uri m'.uri stored entries ∙ rw other p, q)
    ]

    note_meta_other :
        (m m' : DocumentMeta) (o : Option DocEntry) (wanted : List String) (ctx : RunContext V I)
        → InTable table m
        → InTable table m'
        → Seen wanted ctx m
        → let t = note_meta a m' (listed_alike o m') wanted ctx in Seen t.0 t.1 m
    unfolding note_meta
    note_meta_other m m' o wanted ctx t t' seen = elim (Option-cases (listed_alike o m')) [
      | inl e ↦
          rw e
            (elim seen [ inl h ↦ inl h | inr h ↦ inr (contains-add_to_set m.uri m'.uri wanted h) ])
      | inr (stored, e) ↦ rw e (elim seen [
        | inl h ↦
            inl (kept_entry m m' stored ctx.entries t t' (listed_alike-fingerprint o m' stored e) h)
        | inr h ↦ inr h
      ])
    ]

    -- Each document of a listing whose table holds all its metas is noted or wanted by the scan.
    scan_keeps :
        (docstore : DocStore) (signature : String) (metas : List DocumentMeta) (m : DocumentMeta)
        → (wanted : List String) (ctx : RunContext V I) → InTable table m
        → All (InTable table) metas
        → Seen wanted ctx m
        → let t = scan a docstore signature metas wanted ctx in Seen t.0 t.1 m
    unfolding scan
    scan_keeps docstore signature [] m wanted ctx t ts seen = seen
    scan_keeps docstore signature (m' ∷ metas) m wanted ctx t ts seen =
        let o = entry a.repr docstore a.source_id signature m'.uri in
        let next = note_meta a m' (listed_alike o m') wanted ctx in
        scan_keeps docstore signature metas m next.0 next.1 t ts.1
          (note_meta_other m m' o wanted ctx t ts.0 seen)

    pub scan_sees :
        (docstore : DocStore) (signature : String) (metas : List DocumentMeta)
        → (wanted : List String) (ctx : RunContext V I) → All (InTable table) metas
        → let t = scan a docstore signature metas wanted ctx in All (Seen t.0 t.1) metas
    unfolding scan
    scan_sees docstore signature [] wanted ctx ts = tt
    scan_sees docstore signature (m ∷ metas) wanted ctx ts =
        let o = entry a.repr docstore a.source_id signature m.uri in
        let next = note_meta a m (listed_alike o m) wanted ctx in
        (
          scan_keeps docstore signature metas m next.0 next.1 ts.0 ts.1
              (note_meta_self m o wanted ctx),
          scan_sees docstore signature metas next.0 next.1 ts.1,
        )
