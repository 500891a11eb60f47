-- ===== src/DocStore/Json/Restoring.antt =====
-- A document store that is opened on the text that another has written.
use alvis.Base.{String, ℕ, ◌≡◌, refl, ap, ◌∙◌, Option, some, List, [], ◌∷◌, string_eq}
use alvis.Base.Dict.{Dict, NodupKeys}
use alvis.Value.{Value, seq, obj, Fields, get_field, to_fields, truth, str}
use alvis.Errors.{Result, ok}
use alvis.DocStore.{DocStore, RunRecord, StateFile, entry, runs, save, save_sources, open_store}
use alvis.DocStore.Commit.{entry-open_store-save}
use alvis.DocStore.Ledger.{runs-open_store-save}
use alvis.DocStore.Json.{
  to_dict, to_dicts, document, text_at, flag_at, number_at, and_then, from_dict, from_dicts,
  histories, runs_in, items, sources_in, state_of, read_state,
}

module _ (repr : Value → String) (int : Value → Result ℕ) where
  from_dicts-to_dicts : (rs : List RunRecord) → from_dicts repr int (to_dicts rs) ≡ ok rs
  unfolding from_dicts to_dicts from_dict to_dict text_at flag_at number_at get_field string_eq
      truth str
  from_dicts-to_dicts [] = refl
  from_dicts-to_dicts (r ∷ rs) = ap (λ m. and_then m λ rest. ok (r ∷ rest)) (from_dicts-to_dicts rs)

  histories_lem :
      (ledger : Dict String (List RunRecord))
      → histories repr int (to_fields (λ rs. seq (to_dicts rs)) ledger) ≡ ok ledger
  unfolding histories to_fields
  histories_lem [] = refl
  histories_lem ((k, rs) ∷ ledger) = rw (from_dicts-to_dicts rs, histories_lem ledger) refl

  items_lem : (d : Dict String Fields) → items (to_fields obj d) ≡ save_sources d
  unfolding items to_fields save_sources
  items_lem [] = refl
  items_lem ((k, e) ∷ d) = ap (λ r. (k, obj e) ∷ r) (items_lem d)

  -- The document that a store writes is read as its sources and its ledger.
  state_of-document : (d : DocStore) → state_of repr int (some (document d)) ≡ ok (save d).file
  unfolding state_of document sources_in runs_in get_field string_eq save
  state_of-document d = rw (histories_lem d.ledger, items_lem d.sources) refl

  -- A store that is opened on the text that `save` has written answers `entry` and `runs` as the store
  -- that was saved: `_load` and `_load_runs` find under their keys what `save` and `to_dict` put there.
  -- `loads` is assumed to read back what `dumps` writes; a source has one history in the ledger.
  pub restored_lem :
      {T : Type 0} (dumps : Value → T) (loads : T → Option Value)
      → ((v : Value) → loads (dumps v) ≡ some v)
      → (d : DocStore) → NodupKeys d.ledger
      → (file : StateFile) × (read_state repr int loads (some (dumps (document d))) ≡ ok file)
        × ((source_id signature uri : String)
            → entry repr (open_store file) source_id signature uri
              ≡ entry repr d source_id signature uri)
        × ((source_id : String) → runs (open_store file) source_id ≡ runs d source_id)
  unfolding read_state
  restored_lem dumps loads reads_back d once = (
    (save d).file,
    ap (state_of repr int) (reads_back (document d)) ∙ state_of-document d,
    entry-open_store-save repr d,
    λ source_id. runs-open_store-save d source_id once,
  )
