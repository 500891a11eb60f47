-- ===== src/DocStore/Commit.antt =====
-- What `entry` answers after `commit`, and that the state file restores it.
use alvis.Base.{String, ◌≡◌, ◌≢◌, refl, ap, Option, none, some, [], ◌∷◌, arith}
use alvis.Base.{◌==◌, string_eq, if◌then◌else◌}
use alvis.Base.Dict.{Dict, keys, lookup, lookup-insert, lookup-insert_ne, NodupKeys}
use alvis.Value.{Value, Fields, get_field, field_keys, to_fields, map_value}
use alvis.Value.{get_field-to_fields}
use alvis.DocStore.{DocStore, DocEntry, entry, entry_in, commit, commit_entry}
use alvis.DocStore.{encode_entry, stored_value, save, open_store, save_sources, load_sources}
use alvis.DocStore.{RunRecord, record_run}

stored_value-encode_entry :
    (repr : Value → String) (o : Option DocEntry) → stored_value repr (map_value encode_entry o) ≡ o
unfolding stored_value encode_entry get_field string_eq
stored_value-encode_entry repr none = refl
stored_value-encode_entry repr (some e) = ground arith

entry_in-commit_entry :
    (repr : Value → String) (signature signature' uri : String) (current : Dict String DocEntry)
    → entry_in repr (some (commit_entry signature current)) signature' uri
      ≡ (if signature == signature' then lookup uri current else none)
unfolding entry_in commit_entry get_field string_eq
entry_in-commit_entry repr signature signature' uri current =
    rw (get_field-to_fields encode_entry uri current)
      (rw (stored_value-encode_entry repr (lookup uri current)) refl)

-- After a commit of `current` for a source under a signature, `entry` answers for that source what
-- `current` holds if it is asked with the same signature, and nothing if with another one; for every
-- other source it answers what it did before.
pub entry-commit :
    (repr : Value → String) (d : DocStore) (source_id signature : String)
    → (current : Dict String DocEntry) (source_id' signature' uri : String)
    → entry repr (commit source_id signature current d).1 source_id' signature' uri ≡ (
        if source_id' == source_id
        then (if signature == signature' then lookup uri current else none)
        else entry repr d source_id' signature' uri)
unfolding entry commit
entry-commit repr d source_id signature current source_id' signature' uri = ground (
  arith,
  lookup-insert source_id' source_id (commit_entry signature current) d.sources,
  entry_in-commit_entry repr signature signature' uri current,
)

field_keys-to_fields :
    (current : Dict String DocEntry) → field_keys (to_fields encode_entry current) ≡ keys current
unfolding to_fields
field_keys-to_fields [] = refl
field_keys-to_fields ((k, e) ∷ d) = ap (λ ks. k ∷ ks) (field_keys-to_fields d)

load_sources-save_sources : (d : Dict String Fields) → load_sources (save_sources d) ≡ d
unfolding load_sources save_sources
load_sources-save_sources [] = refl
load_sources-save_sources ((k, e) ∷ d) = ap (λ r. (k, e) ∷ r) (load_sources-save_sources d)

-- A store that is opened on the state file of a saved one answers every `entry` alike.
pub entry-open_store-save :
    (repr : Value → String) (d : DocStore) (source_id signature uri : String)
    → entry repr (open_store (save d).file) source_id signature uri
      ≡ entry repr d source_id signature uri
unfolding entry open_store save
entry-open_store-save repr d source_id signature uri = rw (load_sources-save_sources d.sources) refl

-- Neither a commit nor a save touches the ledger.
pub save-commit_ledger :
    (source_id signature : String) (current : Dict String DocEntry) (d : DocStore)
    → NodupKeys d.ledger
    → NodupKeys (save (commit source_id signature current d).1).ledger
unfolding save commit
save-commit_ledger source_id signature current d once = once

-- A commit leaves the other sources alone.
pub lookup-save-commit_ne :
    (source_id signature s : String) (current : Dict String DocEntry) (d : DocStore)
    → s ≢ source_id
    → lookup s (save (commit source_id signature current d).1).sources ≡ lookup s d.sources
unfolding save commit
lookup-save-commit_ne source_id signature s current d h =
    lookup-insert_ne s source_id (commit_entry signature current) d.sources h

-- Recording a run writes the sources to the file as they are.
pub sources-record_run :
    (source_id : String) (r : RunRecord) (d : DocStore)
    → (open_store (record_run source_id r d).file).sources ≡ d.sources
unfolding record_run save open_store
sources-record_run source_id r d = load_sources-save_sources d.sources
