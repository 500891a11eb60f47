-- ===== src/Pipeline/Stages/Fetch/Idle.antt =====
-- `FetchStage` over a listing of which the store holds every fingerprint.
use alvis.Base.{
  String, ℕ, suc, ◌+◌, ◌≡◌, inl, inr, refl, ap, sym, ◌∙◌, true, Option, some, List, [], ◌∷◌, arith,
}
use alvis.Base.{All, Option-cases, length}
use mathlib.Core.Path.{subst}
use alvis.Models.{DocumentMeta}
use alvis.Errors.{ok}
use alvis.DocStore.{DocStore, entry}
use alvis.Pipeline.Context.{Adapters, RunContext, new_context}
use alvis.Pipeline.Idle.{Idle, IdleStep, Alike}
use alvis.Pipeline.Stages.Fetch.{
  fetch_stage, fetch_listed, fetch_wanted, with_artifacts, scan, note_meta, listed_alike,
  listing_table, stamp_all,
}
use alvis.Pipeline.Stages.Fetch.Delivery.{fetch_stage-fetch_listed}

stamp_all_empty : (acl : List String) → stamp_all acl [] ≡ []
unfolding stamp_all
stamp_all_empty [] = refl
stamp_all_empty (p ∷ ps) = refl

module _ {V I : Type 0} (a : Adapters V I) where
  scan-Idle :
      (d : DocStore) (signature : String) (metas : List DocumentMeta)
      → (n : ℕ) (ctx : RunContext V I) → All (Alike a d signature) metas
      → Idle n ctx
      → ((scan a d signature metas [] ctx).0 ≡ [])
        × Idle (n + length metas) (scan a d signature metas [] ctx).1
  unfolding scan note_meta
  scan-Idle d signature [] n ctx alike h = (
    refl,
    record {
      documents_all = h.documents_all ∙ omega arith;
      skipped_all = h.skipped_all ∙ omega arith;
      changed_zero = h.changed_zero;
      indexed_zero = h.indexed_zero;
      hits_zero = h.hits_zero;
      misses_zero = h.misses_zero;
      pending_empty = h.pending_empty;
      artifacts_empty = h.artifacts_empty;
    },
  )
  scan-Idle d signature (m ∷ metas) n ctx alike h =
      let o = listed_alike (entry a.repr d a.source_id signature m.uri) m in
      elim (Option-cases o) [
        | inl e ↦ absurd (alike.0 e)
        | inr (stored, e) ↦
            let next = note_meta a m (some stored) [] ctx in
            let t = scan-Idle d signature metas (n + 1) next.1 alike.1 record {
              documents_all = ap (λ x. x + 1) h.documents_all;
              skipped_all = ap (λ x. x + 1) h.skipped_all;
              changed_zero = h.changed_zero;
              indexed_zero = h.indexed_zero;
              hits_zero = h.hits_zero;
              misses_zero = h.misses_zero;
              pending_empty = h.pending_empty;
              artifacts_empty = h.artifacts_empty;
            } in
            subst
              (λ o.
                let next = note_meta a m o [] ctx in
                let after = scan a d signature metas next.0 next.1 in
                (after.0 ≡ []) × Idle (n + suc (length metas)) after.1)
              (sym e)
              (
                t.0,
                subst (λ k. Idle k (scan a d signature metas [] next.1).1)
                    (the_sum n (length metas)) t.1,
              )
      ]
    where
      the_sum : (n k : ℕ) → n + 1 + k ≡ n + suc k
      the_sum n k = omega arith

  with_artifacts-IdleStep :
      (n : ℕ) (wanted : List String) (ctx : RunContext V I)
      → wanted ≡ []
      → Idle n ctx
      → IdleStep n (with_artifacts a ctx (fetch_wanted a wanted))
  unfolding with_artifacts fetch_wanted IdleStep
  with_artifacts-IdleStep n [] ctx e h = (
    refl,
    record {
      documents_all = h.documents_all;
      skipped_all = h.skipped_all;
      changed_zero = h.changed_zero;
      indexed_zero = h.indexed_zero;
      hits_zero = h.hits_zero;
      misses_zero = h.misses_zero;
      pending_empty = h.pending_empty;
      artifacts_empty = stamp_all_empty a.acl;
    },
  )
  with_artifacts-IdleStep n (u ∷ wanted) ctx e h = cc

  pub fetch_stage-IdleStep :
      (d : DocStore) (signature : String) (metas : List DocumentMeta) (i : Option I)
      → a.signature ≡ some signature
      → a.list_documents ≡ some (ok metas)
      → All (Alike a d signature) metas
      → IdleStep (length metas) (fetch_stage a (new_context (some d) i))
  unfolding fetch_listed
  fetch_stage-IdleStep d signature metas i signed listing alike =
      let fresh : RunContext V I = new_context (some d) i in
      let start : RunContext V I = record fresh {
        use_listing = true;
        uri_by_meta = listing_table metas;
      } in
      let t = scan-Idle d signature metas 0 start alike record {
        documents_all = refl;
        skipped_all = refl;
        changed_zero = refl;
        indexed_zero = refl;
        hits_zero = refl;
        misses_zero = refl;
        pending_empty = refl;
        artifacts_empty = refl;
      } in
      rw (fetch_stage-fetch_listed a d signature metas fresh refl signed listing) (
        with_artifacts-IdleStep (length metas) (scan a d signature metas [] start).0
          (scan a d signature metas [] start).1 t.0
          (subst (λ n. Idle n (scan a d signature metas [] start).1) (zero_sum (length metas)) t.1))
    where
      zero_sum : (n : ℕ) → 0 + n ≡ n
      zero_sum n = omega arith
