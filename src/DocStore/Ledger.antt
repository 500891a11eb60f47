-- ===== src/DocStore/Ledger.antt =====
-- The ledger of runs: bounded, newest first, and kept apart by source.
use alvis.Base.{String, ℕ, zero, suc, ◌≡◌, refl, ap, sym, ◌∙◌, none, some, List, [], ◌∷◌, arith}
use alvis.Base.{◌==◌, string_eq, if◌then◌else◌, take, Bool-cases, inl, inr, ==→eq}
use alvis.Base.Dict.{Dict, lookup, lookup-insert, lookup-insert_self, NodupKeys, insert-NodupKeys}
use alvis.DocStore.{
  DocStore, RunRecord, runs, record_run, run_history, save, last_run, open_store, load_runs,
  history, newest,
}

runs-record_run :
    (k source_id : String) (r : RunRecord) (d : DocStore)
    → runs (record_run source_id r d) k
      ≡ (if k == source_id then take run_history (r ∷ runs d source_id) else runs d k)
unfolding runs record_run
runs-record_run k source_id r d =
    ground (arith, lookup-insert k source_id (take run_history (r ∷ runs d source_id)) d.ledger)

-- Outcomes in the order in which they were recorded, each with its source.
abbrev pub record_all : List (String × RunRecord) → DocStore → DocStore
record_all [] d = d
record_all ((source_id, r) ∷ rest) d = record_all rest (record_run source_id r d)

abbrev pub of_source : String → List (String × RunRecord) → List RunRecord
of_source k [] = []
of_source k ((source_id, r) ∷ rest) =
    let others = of_source k rest in if k == source_id then r ∷ others else others

abbrev pub reverse_onto {ℓ} : {A : Type ℓ} → List A → List A → List A
reverse_onto [] ys = ys
reverse_onto (x ∷ xs) ys = reverse_onto xs (x ∷ ys)

module _ {ℓ} {A : Type ℓ} where
  take_shorter :
      (n : ℕ) (xs ys : List A) → take (suc n) xs ≡ take (suc n) ys → take n xs ≡ take n ys
  take_shorter zero xs ys h = refl
  take_shorter (suc n) [] [] h = refl
  take_shorter (suc n) [] (y ∷ ys) h = cc
  take_shorter (suc n) (x ∷ xs) [] h = cc
  take_shorter (suc n) (x ∷ xs) (y ∷ ys) h = ground (arith, take_shorter n xs ys)

  take-cons :
      (n : ℕ) (x : A) (xs ys : List A) → take n xs ≡ take n ys → take n (x ∷ xs) ≡ take n (x ∷ ys)
  take-cons zero x xs ys h = refl
  take-cons (suc n) x xs ys h = ap (λ zs. x ∷ zs) (take_shorter n xs ys h)

  take-reverse_onto :
      (n : ℕ) (zs xs ys : List A)
      → take n xs ≡ take n ys
      → take n (reverse_onto zs xs) ≡ take n (reverse_onto zs ys)
  take-reverse_onto n [] xs ys h = h
  take-reverse_onto n (z ∷ zs) xs ys h =
      take-reverse_onto n zs (z ∷ xs) (z ∷ ys) (take-cons n z xs ys h)

  take-take : (n : ℕ) (xs : List A) → take n (take n xs) ≡ take n xs
  take-take zero xs = refl
  take-take (suc n) [] = refl
  take-take (suc n) (x ∷ xs) = ap (λ zs. x ∷ zs) (take-take n xs)

-- Whatever outcomes are recorded, of whatever sources, the ledger of a source holds the last ten of
-- its own, newest first, and before them what it held.
pub runs-record_all :
    (k : String) (outcomes : List (String × RunRecord)) (d : DocStore)
    → take run_history (runs d k) ≡ runs d k
    → runs (record_all outcomes d) k
      ≡ take run_history (reverse_onto (of_source k outcomes) (runs d k))
runs-record_all k [] d h = sym h
runs-record_all k ((source_id, r) ∷ rest) d h = elim (Bool-cases (k == source_id)) [
  | inl e ↦
      let now : runs (record_run source_id r d) k ≡ take run_history (r ∷ runs d k) =
        runs-record_run k source_id r d
        ∙ rw e (ap (λ j. take run_history (r ∷ runs d j)) (sym (==→eq k source_id e))) in
      rw e (
        runs-record_all k rest (record_run source_id r d)
          (rw now (take-take run_history (r ∷ runs d k)))
        ∙ take-reverse_onto run_history (of_source k rest) _ _
            (rw now (take-take run_history (r ∷ runs d k))))
  | inr e ↦
      let now : runs (record_run source_id r d) k ≡ runs d k =
        runs-record_run k source_id r d ∙ rw e in
      rw e (
        runs-record_all k rest (record_run source_id r d) (rw now h)
        ∙ ap (λ l. take run_history (reverse_onto (of_source k rest) l)) now)
]

lookup-load_runs_absent :
    (k : String) (l : Dict String (List RunRecord))
    → lookup k l ≡ none
    → lookup k (load_runs l) ≡ none
unfolding lookup load_runs
lookup-load_runs_absent k [] h = refl
lookup-load_runs_absent k ((j, []) ∷ l) h = ground (arith, lookup-load_runs_absent k l)
lookup-load_runs_absent k ((j, r ∷ rest) ∷ l) h = ground (arith, lookup-load_runs_absent k l)

history-load_runs :
    (k : String) (l : Dict String (List RunRecord))
    → NodupKeys l
    → history (lookup k (load_runs l)) ≡ history (lookup k l)
unfolding lookup load_runs history
history-load_runs k [] u = refl
history-load_runs k ((j, []) ∷ l) (fresh, u) =
    ground (arith, history-load_runs k l u, lookup-load_runs_absent j l fresh)
history-load_runs k ((j, r ∷ rest) ∷ l) (fresh, u) = ground (arith, history-load_runs k l u)

pub runs-open_store-save :
    (d : DocStore) (source_id : String)
    → NodupKeys d.ledger
    → runs (open_store (save d).file) source_id ≡ runs d source_id
unfolding runs open_store save
runs-open_store-save d source_id once = history-load_runs source_id d.ledger once

-- Recording a run of a store whose ledger has each source once makes the run the last one of its
-- source, keeps the document state, and writes a state file from which a store with the same last
-- runs, of every source, is opened.
pub last_run-record_run :
    (source_id : String) (r : RunRecord) (d : DocStore)
    → NodupKeys d.ledger
    → (last_run (record_run source_id r d) source_id ≡ some r)
      × ((record_run source_id r d).sources ≡ d.sources)
      × ((k : String)
          → last_run (open_store (record_run source_id r d).file) k
            ≡ last_run (record_run source_id r d) k)
unfolding last_run record_run save open_store runs
last_run-record_run source_id r d u = (
  ground (arith, lookup-insert_self source_id (take run_history (r ∷ runs d source_id)) d.ledger),
  refl,
  λ k. ap newest (
      history-load_runs k _
        (insert-NodupKeys source_id (take run_history (r ∷ runs d source_id)) d.ledger u)),
)
