-- ===== src/Models.antt =====
-- core/models.py and core/ids.py: the runtime objects that flow through the pipeline.
use alvis.Base.{String, ◌<>◌, ℕ, Option, List}
use alvis.Base.Dict.{Dict}
use alvis.Value.{Value}

abbrev pub Metadata : Type 0
Metadata = Dict String Value

pub record Artifact : Type 0 where
  pub step_id : String
  pub uri : String
  pub content_type : String
  pub body : String
  pub metadata : Metadata

pub record Chunk : Type 0 where
  pub text : String
  pub source_uri : String
  pub metadata : Metadata

pub record Section : Type 0 where
  pub heading : String
  pub body : String

pub record Document : Type 0 where
  pub schema_version : ℕ
  pub uri : String
  pub title : String
  pub sections : List Section

-- The score is a float, a type that the index and its clients take as a parameter.
pub record SearchHit (F : Type 0) : Type 0 where
  pub text : String
  pub source_uri : String
  pub metadata : Metadata
  pub score : F

pub record DocumentMeta : Type 0 where
  pub uri : String
  pub step_id : String
  pub fingerprint : String
  pub content_type : Option String

-- `content_hash` for the digest `sha256`, of which nothing is assumed.
unfoldable pub content_hash : (String → String) → Artifact → String
content_hash sha256 artifact = sha256 artifact.body

-- `point_id` for the name-based identifier `uuid5` in the URL namespace.
unfoldable pub point_id : (String → String) → String → String → String
point_id uuid5 source_uri chunk_text = uuid5 (source_uri <> "\n" <> chunk_text)
