-- ===== src/DocStore.antt =====
-- docstore.py: per-source document state for incremental ingestion, and the ledger of runs.
pub mod Commit
pub mod Ledger
pub mod Json
use alvis.Base.{String, ℕ, Bool, true, false, not, Option, none, some, List, [], ◌∷◌, map}
use alvis.Base.{Eq, ◌==◌, string_eq, contains, if◌then◌else◌, take, countb, is_some}
use alvis.Base.Dict.{Dict, keys, lookup, insert}
use alvis.Value.{Value, null, text, obj, Fields, end, field, get_field, field_keys, to_fields}
use alvis.Value.{str, is_text}

-- `None` where no cheap listing was available.
pub record DocEntry : Type 0 where
  pub content : String
  pub listing : Option String

-- The duration is a reading of the model's clock, in ticks.
pub record RunRecord : Type 0 where
  pub at : String
  pub ok : Bool
  pub error : String
  pub duration : ℕ
  pub documents : ℕ
  pub chunks : ℕ
  pub changed : ℕ
  pub skipped : ℕ
  pub deleted : ℕ
  pub embed_cache_hits : ℕ
  pub embed_cache_misses : ℕ

-- The state file: none, one that is no JSON, or what `save` writes, where the value under a source
-- need not be a dict.
pub data StateFile : Type 0 where
  missing malformed : StateFile
  saved : Dict String Value → Dict String (List RunRecord) → StateFile

pub record DocStore : Type 0 where
  pub file : StateFile
  pub sources : Dict String Fields
  pub ledger : Dict String (List RunRecord)

abbrev pub run_history : ℕ
run_history = 10

or_text : (Value → String) → Option Value → String
or_text repr none = ""
or_text repr (some null) = ""
or_text repr (some v) = str repr v

text_only : Option Value → Option String
text_only (some (text s)) = some s
text_only _ = none

decode_entry : (Value → String) → Value → DocEntry
unfolding or_text text_only str
decode_entry repr (text s) = record { content = s; listing = none }
decode_entry repr (obj fs) = record {
  content = or_text repr (get_field "content" fs);
  listing = text_only (get_field "listing" fs);
}
decode_entry repr v = record { content = str repr v; listing = none }

-- The last two tests of `entry`.
stored_value : (Value → String) → Option Value → Option DocEntry
unfolding decode_entry
stored_value repr none = none
stored_value repr (some null) = none
stored_value repr (some v) = some (decode_entry repr v)

documents_of : Option Value → Fields
documents_of (some (obj fs)) = fs
documents_of _ = end

signed_by : String → Option Value → Bool
unfolding is_text
signed_by signature none = false
signed_by signature (some v) = is_text v signature

entry_in : (Value → String) → Option Fields → String → String → Option DocEntry
unfolding documents_of signed_by stored_value get_field
entry_in repr none signature uri = none
entry_in repr (some e) signature uri =
    if signed_by signature (get_field "signature" e)
    then stored_value repr (get_field uri (documents_of (get_field "documents" e)))
    else none

-- `repr` is Python's rendering of numbers and containers, which `commit` never stores.
unfoldable pub entry : (Value → String) → DocStore → String → String → String → Option DocEntry
unfolding entry_in lookup
entry repr d source_id signature uri = entry_in repr (lookup source_id d.sources) signature uri

listing_value : Option String → Value
listing_value none = null
listing_value (some s) = text s

encode_entry : DocEntry → Value
unfolding listing_value
encode_entry e =
    obj (field "content" (text e.content) (field "listing" (listing_value e.listing) end))

previous_documents : Option Fields → Fields
unfolding documents_of get_field
previous_documents none = end
previous_documents (some e) = documents_of (get_field "documents" e)

commit_entry : String → Dict String DocEntry → Fields
unfolding encode_entry to_fields
commit_entry signature current =
    field "signature" (text signature)
      (field "documents" (obj (to_fields encode_entry current)) end)

unfoldable pub commit : String → String → Dict String DocEntry → DocStore → ℕ × DocStore
unfolding previous_documents commit_entry lookup insert
commit source_id signature current d =
    let previous = previous_documents (lookup source_id d.sources) in
    (
      countb (λ uri. not (contains uri (keys current))) (field_keys previous),
      record d { sources = insert source_id (commit_entry signature current) d.sources },
    )

save_sources : Dict String Fields → Dict String Value
save_sources [] = []
save_sources ((k, e) ∷ d) = (k, obj e) ∷ save_sources d

unfoldable pub save : DocStore → DocStore
unfolding save_sources
save d = record d { file = saved (save_sources d.sources) d.ledger }

history : Option (List RunRecord) → List RunRecord
history none = []
history (some rs) = rs

unfoldable pub runs : DocStore → String → List RunRecord
unfolding history lookup
runs d source_id = history (lookup source_id d.ledger)

unfoldable pub record_run : String → RunRecord → DocStore → DocStore
unfolding runs save insert
record_run source_id r d =
    save (record d { ledger = insert source_id (take run_history (r ∷ runs d source_id)) d.ledger })

newest : List RunRecord → Option RunRecord
newest [] = none
newest (r ∷ rest) = some r

unfoldable pub last_run : DocStore → String → Option RunRecord
unfolding newest runs
last_run d source_id = newest (runs d source_id)

-- `_load` keeps the sources whose entry is a dict; `_load_runs` the histories that are not empty.
load_sources : Dict String Value → Dict String Fields
load_sources [] = []
load_sources ((k, obj e) ∷ d) = (k, e) ∷ load_sources d
load_sources ((k, v) ∷ d) = load_sources d

load_runs : Dict String (List RunRecord) → Dict String (List RunRecord)
load_runs [] = []
load_runs ((k, []) ∷ d) = load_runs d
load_runs ((k, r ∷ rest) ∷ d) = (k, r ∷ rest) ∷ load_runs d

-- `DocStore(path)`
unfoldable pub open_store : StateFile → DocStore
unfolding load_sources load_runs
open_store missing = record { file = missing; sources = []; ledger = [] }
open_store malformed = record { file = malformed; sources = []; ledger = [] }
open_store (saved sources ledger) = record {
  file = saved sources ledger;
  sources = load_sources sources;
  ledger = load_runs ledger;
}
