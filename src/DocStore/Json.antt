-- ===== src/DocStore/Json.antt =====
-- docstore.py: the JSON document of the state file, as `save` writes it and `__init__` reads it. Its text
-- is of a type of its own, which `dumps` and `loads` write and read; a dict is read by its keys alone, so
-- the order in which `sort_keys` writes them is left out.
pub mod Restoring
use alvis.Base.{String, ℕ, Bool, false, Option, none, some, List, [], ◌∷◌, string_eq}
use alvis.Base.Dict.{Dict}
use alvis.Value.{
  Value, flag, num, text, seq, obj, Items, nil, cons, Fields, end, field, get_field, to_fields,
  truth, str,
}
use alvis.Errors.{other_error, Result, ok, err}
use alvis.DocStore.{DocStore, RunRecord, StateFile, missing, malformed, saved}

abbrev state_version : ℕ
state_version = 2

-- `RunRecord.to_dict`
to_dict : RunRecord → Value
to_dict r = obj (
    field "at" (text r.at) (
      field "ok" (flag r.ok) (
        field "error" (text r.error) (
          field "duration_seconds" (num r.duration) (
            field "documents" (num r.documents) (
              field "chunks" (num r.chunks) (
                field "changed" (num r.changed) (
                  field "skipped" (num r.skipped) (
                    field "deleted" (num r.deleted) (
                      field "embed_cache_hits" (num r.embed_cache_hits)
                        (field "embed_cache_misses" (num r.embed_cache_misses) end)))))))))))

to_dicts : List RunRecord → Items
unfolding to_dict
to_dicts [] = nil
to_dicts (r ∷ rs) = cons (to_dict r) (to_dicts rs)

-- What `save` hands to `json.dumps`.
unfoldable pub document : DocStore → Value
unfolding to_fields to_dicts
document d = obj (
    field "version" (num state_version) (
      field "sources" (obj (to_fields obj d.sources))
        (field "runs" (obj (to_fields (λ rs. seq (to_dicts rs)) d.ledger)) end)))

-- `str(value.get(key, ""))` and `bool(value.get(key, False))`
text_at : (Value → String) → Option Value → String
unfolding str
text_at repr none = ""
text_at repr (some v) = str repr v

flag_at : Option Value → Bool
unfolding truth
flag_at none = false
flag_at (some v) = truth v

-- `int(value.get(key, 0))`, where `int` is the conversion of what is no number.
number_at : (Value → Result ℕ) → Option Value → Result ℕ
number_at int none = ok 0
number_at int (some (num n)) = ok n
number_at int (some v) = int v

abbrev pub and_then {ℓ κ} : {A : Type ℓ} {B : Type κ} → Result A → (A → Result B) → Result B
and_then (ok a) f = f a
and_then (err e) f = err e

-- The items of a dict, and of the value under `sources` if it is one.
items : Fields → Dict String Value
items end = []
items (field k v rest) = (k, v) ∷ items rest

sources_in : Option Value → Dict String Value
unfolding items
sources_in (some (obj fs)) = items fs
sources_in _ = []

module _ (repr : Value → String) (int : Value → Result ℕ) where
  -- `RunRecord.from_dict`
  from_dict : Fields → Result RunRecord
  unfolding text_at flag_at number_at get_field string_eq
  from_dict value = and_then (number_at int (get_field "duration_seconds" value)) λ duration.
      and_then (number_at int (get_field "documents" value)) λ documents.
        and_then (number_at int (get_field "chunks" value)) λ chunks.
          and_then (number_at int (get_field "changed" value)) λ changed.
            and_then (number_at int (get_field "skipped" value)) λ skipped.
              and_then (number_at int (get_field "deleted" value)) λ deleted.
                and_then (number_at int (get_field "embed_cache_hits" value)) λ hits.
                  and_then (number_at int (get_field "embed_cache_misses" value)) λ misses.
                    ok (record {
                      at = text_at repr (get_field "at" value);
                      ok = flag_at (get_field "ok" value);
                      error = text_at repr (get_field "error" value);
                      duration = duration;
                      documents = documents;
                      chunks = chunks;
                      changed = changed;
                      skipped = skipped;
                      deleted = deleted;
                      embed_cache_hits = hits;
                      embed_cache_misses = misses;
                    })

  -- The records of a history: of its items, those that are dicts.
  from_dicts : Items → Result (List RunRecord)
  unfolding from_dict
  from_dicts nil = ok []
  from_dicts (cons (obj value) rest) =
      and_then (from_dict value) λ r. and_then (from_dicts rest) λ rs. ok (r ∷ rs)
  from_dicts (cons v rest) = from_dicts rest

  -- The loop of `_load_runs`, which passes over what is no list.
  histories : Fields → Result (Dict String (List RunRecord))
  unfolding from_dicts
  histories end = ok []
  histories (field k (seq items) rest) =
      and_then (from_dicts items) λ rs. and_then (histories rest) λ ledger. ok ((k, rs) ∷ ledger)
  histories (field k v rest) = histories rest

  runs_in : Option Value → Result (Dict String (List RunRecord))
  unfolding histories
  runs_in (some (obj fs)) = histories fs
  runs_in _ = ok []

  -- The document that `json.loads` gives, if the text is JSON; only a dict has the method `get`.
  state_of : Option Value → Result StateFile
  unfolding sources_in runs_in get_field string_eq
  state_of none = ok malformed
  state_of (some (obj top)) =
      and_then (runs_in (get_field "runs" top))
        λ ledger. ok (saved (sources_in (get_field "sources" top)) ledger)
  state_of (some v) = err (other_error "object has no attribute 'get'")

  -- What `DocStore(path)` finds, of a file that may not exist.
  unfoldable pub read_state : {T : Type 0} → (T → Option Value) → Option T → Result StateFile
  unfolding state_of
  read_state loads none = ok missing
  read_state loads (some t) = state_of (loads t)
