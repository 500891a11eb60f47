-- ===== src/Tests/DocStoreRuns.antt =====
-- The document store on small data.
use alvis.Base.{String, ◌≡◌, refl, none, some, [], ◌∷◌, string_eq}
use alvis.Base.Dict.{Dict, lookup}
use alvis.DocStore.{DocEntry, DocStore, StateFile, entry, commit, open_store, record_run, runs}
use alvis.DocStore.Commit.{entry-commit}
use alvis.DocStore.Json.{document, read_state}
use alvis.DocStore.Json.Restoring.{restored_lem}
use alvis.Value.{seq, nil}
use alvis.Errors.{ok, err, other_error}
use alvis.DocStore.Ledger.{runs-record_all, record_all}
use alvis.Tests.Fixtures.{repr, good_run, bad_run, empty_store, entry_a, entry_b}

abbrev docs : Dict String DocEntry
docs = ("a.md", entry_a) ∷ ("b.md", entry_b) ∷ []

entry-commit_example :
    entry repr (commit "fs:docs" "s1" docs empty_store).1 "fs:docs" "s1" "a.md" ≡ some entry_a
unfolding lookup string_eq
entry-commit_example = entry-commit repr empty_store "fs:docs" "s1" docs "fs:docs" "s1" "a.md"

other_signature : entry repr (commit "fs:docs" "s1" docs empty_store).1 "fs:docs" "s2" "a.md" ≡ none
unfolding entry commit string_eq
other_signature = refl

-- A store with the entries and a run.
abbrev kept : DocStore
kept = record_run "fs" good_run (commit "fs" "s1" docs empty_store).1

restored_lem_example :
    (file : StateFile) × (read_state repr (λ v. ok 0) some (some (document kept)) ≡ ok file)
    × ((source_id signature uri : String)
        → entry repr (open_store file) source_id signature uri
          ≡ entry repr kept source_id signature uri)
    × ((source_id : String) → runs (open_store file) source_id ≡ runs kept source_id)
unfolding record_run runs lookup string_eq commit
restored_lem_example = restored_lem repr (λ v. ok 0) (λ v. v) some (λ v. refl) kept (refl, tt)

-- A file that is a list has no `get`.
no_dict :
    read_state repr (λ v. ok 0) some (some (seq nil))
    ≡ err (other_error "object has no attribute 'get'")
unfolding read_state
no_dict = refl

runs-record_all_example :
    runs (record_all (("fs", good_run) ∷ ("s3", good_run) ∷ ("fs", bad_run) ∷ []) empty_store) "fs"
    ≡ bad_run ∷ good_run ∷ []
unfolding runs string_eq
runs-record_all_example =
    runs-record_all "fs" (("fs", good_run) ∷ ("s3", good_run) ∷ ("fs", bad_run) ∷ []) empty_store
      refl
