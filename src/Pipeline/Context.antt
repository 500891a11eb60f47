-- ===== src/Pipeline/Context.antt =====
-- `RunContext` of pipeline/stages.py: the adapters of a run, and the state that its stages share.
use alvis.Base.{String, ℕ, Bool, false, Option, List, []}
use alvis.Base.Dict.{Dict}
use alvis.Value.{Value}
use alvis.Models.{Artifact, Chunk, Document, DocumentMeta}
use alvis.Errors.{Result, Exec}
use alvis.DocStore.{DocStore, DocEntry}

-- The adapters, and what the stages read of the configuration, over vectors `V` and an index whose
-- state is `I`. Source, extractor, chunker and embedder are functions, which do not change within a
-- run; `embed_batch` gives with its result the hits and misses that the embedder has counted by then,
-- which are 0 where it does not count. `fetch` takes the wanted uris, or `none` for all documents; `list_documents` and
-- `upsert_batch` are the optional capabilities. An empty `acl` stands for none.
pub record Adapters (V I : Type 0) : Type 0 where
  pub source_id : String
  pub signature : Option String
  pub source_type : String
  pub acl : List String
  pub sha256 : String → String
  pub repr : Value → String
  pub list_documents : Option (Result (List DocumentMeta))
  pub fetch : Option (List String) → Result (List Artifact)
  pub extract : Artifact → Result Document
  pub chunk : Document → Result (List Chunk)
  pub embed_batch : List Chunk → Result (List V) × ℕ × ℕ
  pub upsert : Chunk → V → String → String → Exec I (Unit {0})
  pub upsert_batch : Option (List (Chunk × V × String) → String → Exec I (Unit {0}))
  pub reconcile : String → Dict String String → Exec I (Unit {0})

-- The mutable part, with the document store and the index that the run writes to.
pub record RunContext (V I : Type 0) : Type 0 where
  pub docstore : Option DocStore
  pub indexer : Option I
  pub use_listing : Bool
  pub uri_by_meta : Dict String DocumentMeta
  pub artifacts : List Artifact
  pub current : Dict String String
  pub entries : Dict String DocEntry
  pub pending : List (Chunk × String)
  pub vectors : List V
  pub documents : ℕ
  pub indexed : ℕ
  pub changed : ℕ
  pub skipped : ℕ
  pub deleted : ℕ
  pub embed_cache_hits : ℕ
  pub embed_cache_misses : ℕ

abbrev pub new_context : {V I : Type 0} → Option DocStore → Option I → RunContext V I
new_context docstore indexer = record {
  docstore = docstore;
  indexer = indexer;
  use_listing = false;
  uri_by_meta = [];
  artifacts = [];
  current = [];
  entries = [];
  pending = [];
  vectors = [];
  documents = 0;
  indexed = 0;
  changed = 0;
  skipped = 0;
  deleted = 0;
  embed_cache_hits = 0;
  embed_cache_misses = 0;
}
