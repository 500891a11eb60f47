-- ===== src/Sources/Provider/Identity.antt =====
-- The documents of a provider source: each id once, within the cap, and fetched as they are listed.
use alvis.Base.{
  String, ℕ, ◌≡◌, refl, ap, sym, ◌∙◌, inl, inr, true, false, ◌||◌, some, List, [], ◌∷◌, ◌++◌, map,
  arith,
}
use alvis.Base.{◌==◌, string_eq, contains, All, All-append, Any, Any-filterb, elim_cases}
use mathlib.Core.Path.{subst}
use alvis.Models.{Artifact, DocumentMeta}
use alvis.Errors.{Error, Result, ok, err}
use alvis.Sources.Provider.{
  SourceDocument, Provider, ProviderSource, exceeds, artifact_of, meta_of, add_batch, add_providers,
  provider_failure, all_documents, metas_of, list_documents, chosen, artifacts_of, fetch,
}

abbrev items : {A : Type 0} → Result (List A) → List A
items (ok xs) = xs
items (err e) = []

items_of : {A : Type 0} (xs ys : List A) → ok xs ≡ ok ys → xs ≡ ys
items_of xs ys e = ap items e

abbrev pub ids : List SourceDocument → List String
ids [] = []
ids (d ∷ ds) = d.id ∷ ids ds

-- No later document has the same id.
abbrev pub HasUniqueIds : List SourceDocument → Type 0
HasUniqueIds [] = Unit
HasUniqueIds (d ∷ ds) = (contains d.id (ids ds) ≡ false) × HasUniqueIds ds

contains-ids_last :
    (x : String) (ds : List SourceDocument) (d : SourceDocument)
    → contains x (ids (ds ++ d ∷ [])) ≡ (x == d.id || contains x (ids ds))
contains-ids_last x [] d = refl
contains-ids_last x (e ∷ ds) d = ground (arith, contains-ids_last x ds d)

HasUniqueIds-last :
    (ds : List SourceDocument) (d : SourceDocument)
    → HasUniqueIds ds
    → contains d.id (ids ds) ≡ false
    → HasUniqueIds (ds ++ d ∷ [])
HasUniqueIds-last [] d u h = (refl, tt)
HasUniqueIds-last (e ∷ ds) d u h = (
  ground (arith, u.0, h, contains-ids_last e.id ds d),
  HasUniqueIds-last ds d u.1 (ground (arith, h)),
)

module _ (sha256 : String → String) (byte_len : String → ℕ) (source : ProviderSource) where
  -- The document is within the cap.
  abbrev pub IsCapped : SourceDocument → Type 0
  IsCapped d = exceeds source.max_bytes (byte_len d.content) ≡ false

  record IsKept (seen : List String) (kept : List SourceDocument) : Type 0 where
    same : (x : String) → contains x seen ≡ contains x (ids kept)
    unique : HasUniqueIds kept
    capped : All IsCapped kept

  abbrev KeptAfter : Result (List String × List SourceDocument) → Type 0
  KeptAfter (ok t) = IsKept t.0 t.1
  KeptAfter (err e) = Unit {0}

  abbrev Good : Result (List SourceDocument) → Type 0
  Good (ok documents) = HasUniqueIds documents × All IsCapped documents
  Good (err e) = Unit {0}

  add_batch-IsKept :
      (label : String) (batch : List SourceDocument) (seen : List String)
      → (kept : List SourceDocument) → IsKept seen kept
      → KeptAfter (add_batch sha256 byte_len source label batch seen kept)
  unfolding add_batch
  add_batch-IsKept label [] seen kept h = h
  add_batch-IsKept label (d ∷ batch) seen kept h =
      elim_cases KeptAfter (contains d.id seen) _ _ (λ _. tt)
        (λ fresh.
          elim_cases KeptAfter (exceeds source.max_bytes (byte_len d.content)) _ _
            (λ _. add_batch-IsKept label batch seen kept h)
            (λ small. add_batch-IsKept label batch (d.id ∷ seen) (kept ++ d ∷ []) (record {
              same = λ x. ap (λ b. x == d.id || b) (h.same x) ∙ sym (contains-ids_last x kept d);
              unique = HasUniqueIds-last kept d h.unique (sym (h.same d.id) ∙ fresh);
              capped = All-append IsCapped kept (d ∷ []) h.capped (small, tt);
            })))

  add_providers-Good :
      (message : Error → String) (providers : List Provider) (seen : List String)
      → (kept : List SourceDocument) → IsKept seen kept
      → Good (add_providers sha256 byte_len source message providers seen kept)
  unfolding add_providers
  add_providers-Good message [] seen kept h = (h.unique, h.capped)
  add_providers-Good message (provider ∷ rest) seen kept h =
      provided (add_providers-Good message rest) provider.documents
    where
      batched :
          ((seen : List String) (kept : List SourceDocument)
            → IsKept seen kept
            → Good (add_providers sha256 byte_len source message rest seen kept))
          → (r : Result (List String × List SourceDocument)) → KeptAfter r
          → Good (elim r [
            | err e ↦ err e
            | ok t ↦ add_providers sha256 byte_len source message rest t.0 t.1
          ])
      batched go (err e) k = tt
      batched go (ok t) k = go t.0 t.1 k

      provided :
          ((seen : List String) (kept : List SourceDocument)
            → IsKept seen kept
            → Good (add_providers sha256 byte_len source message rest seen kept))
          → (r : Result (List SourceDocument))
          → Good (elim r [
            | err e ↦ err (provider_failure sha256 byte_len source provider.label (message e))
            | ok batch ↦ elim (add_batch sha256 byte_len source provider.label batch seen kept) [
              | err e ↦ err e
              | ok t ↦ add_providers sha256 byte_len source message rest t.0 t.1
            ]
          ])
      provided go (err e) = tt
      provided go (ok batch) =
          batched go (add_batch sha256 byte_len source provider.label batch seen kept)
            (add_batch-IsKept provider.label batch seen kept h)

  documents-Good :
      (documents : List SourceDocument) (r : Result (List SourceDocument))
      → r ≡ ok documents
      → Good r
      → HasUniqueIds documents × All IsCapped documents
  documents-Good documents (ok ds) e h = subst (λ r. Good r) e h
  documents-Good documents (err e') e h = cc

  -- The documents of a source, when no provider fails, have different ids, and none is above the cap.
  pub all_documents_lem :
      (message : Error → String) (documents : List SourceDocument)
      → all_documents sha256 byte_len source message ≡ ok documents
      → HasUniqueIds documents × All IsCapped documents
  unfolding all_documents
  all_documents_lem message documents e =
      documents-Good documents (add_providers sha256 byte_len source message source.providers [] [])
        e
        (add_providers-Good message source.providers [] []
          (record { same = λ x. refl; unique = tt; capped = tt }))

  -- The artifact is that of the listed document.
  abbrev pub IsOf : DocumentMeta → Artifact → Type 0
  IsOf m a = (a.uri ≡ m.uri) × (a.step_id ≡ m.step_id)

  Any-artifacts :
      (documents : List SourceDocument) (m : DocumentMeta)
      → Any (λ x. x ≡ m) (map (meta_of sha256 byte_len) documents)
      → Any (IsOf m) (map (artifact_of source.name) documents)
  unfolding meta_of artifact_of
  Any-artifacts [] m h = absurd h
  Any-artifacts (d ∷ ds) m (inl e) =
      inl (ap (λ (x : DocumentMeta). x.uri) e, ap (λ (x : DocumentMeta). x.step_id) e)
  Any-artifacts (d ∷ ds) m (inr h) = inr (Any-artifacts ds m h)

  fetched_from :
      (r : Result (List SourceDocument)) (metas : List DocumentMeta) (m : DocumentMeta)
      → (uris : List String) (artifacts : List Artifact)
      → metas_of sha256 byte_len source r ≡ ok metas
      → Any (λ x. x ≡ m) metas
      → artifacts_of sha256 byte_len source (some uris) r ≡ ok artifacts
      → contains m.uri uris ≡ true
      → Any (IsOf m) artifacts
  unfolding metas_of artifacts_of chosen
  fetched_from (err e) metas m uris artifacts p h q k = cc
  fetched_from (ok documents) metas m uris artifacts p h q k =
      subst (Any (IsOf m)) (items_of _ artifacts q) (
        Any-filterb (IsOf m) (λ a. contains a.uri uris) (map (artifact_of source.name) documents)
          (λ a e. ap (λ u. contains u uris) e.0 ∙ k)
          (Any-artifacts documents m (subst (Any (λ x. x ≡ m)) (sym (items_of _ metas p)) h)))

  -- A fetch of the uris of some listed documents brings an artifact for each of them, with the uri and
  -- the id of the listing.
  pub fetch-list_documents :
      (message : Error → String) (metas : List DocumentMeta) (m : DocumentMeta)
      → (uris : List String) (artifacts : List Artifact)
      → list_documents sha256 byte_len source message ≡ ok metas
      → Any (λ x. x ≡ m) metas
      → fetch sha256 byte_len source message (some uris) ≡ ok artifacts
      → contains m.uri uris ≡ true
      → Any (IsOf m) artifacts
  unfolding list_documents fetch
  fetch-list_documents message metas m uris artifacts p h q k =
      fetched_from (all_documents sha256 byte_len source message) metas m uris artifacts p h q k
