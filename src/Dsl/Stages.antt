-- ===== src/Dsl/Stages.antt =====
-- dsl.py: chunking, extraction, embedding, the indexes and the whole pipeline.
use alvis.Base.{String, Option, List, [], ◌∷◌, ◌++◌, string_eq}
use alvis.Base.Dict.{or_default}
use alvis.Value.{text}
use alvis.Errors.{Result, ok, err}
use alvis.Config.{
  Settings, SourceConfig, ChunkConfig, ExtractConfig, EmbedConfig, IndexConfig, PipelineConfig,
  validate_chunk_settings, validate_embed_settings,
}
use alvis.Dsl.{Setting, always, unless_text, unless_num, if_text, if_given, access, settings}
use alvis.Dsl.Records.{Chunking, Openai, Qdrant, Elasticsearch, Pgvector}

abbrev pub chunk_arguments : Chunking → List Setting
chunk_arguments a =
    unless_num "max_tokens" 500 a.max_tokens
    ∷ unless_num "overlap" 50 a.overlap
    ∷ unless_num "max_chars" 2000 a.max_chars
    ∷ unless_num "overlap_chars" 200 a.overlap_chars
    ∷ []

-- `ChunkConfig(strategy=..., config=...)`, with its validator
unfoldable pub chunk_config : String → Result Settings → Result ChunkConfig
chunk_config strategy (ok config) = ok (record { strategy = strategy; config = config })
chunk_config strategy (err e) = err e

unfoldable pub chunk : Chunking → Result ChunkConfig
unfolding chunk_config validate_chunk_settings settings
chunk a = chunk_config a.strategy (validate_chunk_settings (settings (chunk_arguments a)))

abbrev pub extract : ExtractConfig
extract = record { strategy = "auto"; config = [] }

abbrev pub embed : EmbedConfig
embed = record { type = "default"; config = [] }

abbrev pub openai_arguments : Openai → List Setting
openai_arguments a =
    always "base_url" (text a.base_url)
      ∷ always "model" (text a.model)
      ∷ if_text "api_token_env" a.api_token_env
      ∷ unless_num "batch_size" 32 a.batch_size
      ∷ unless_num "max_concurrency" 4 a.max_concurrency
      ∷ access a.access
    ++ if_given "cache" a.cache ∷ []

embed_config : String → Result Settings → Result EmbedConfig
embed_config type (ok config) = ok (record { type = type; config = config })
embed_config type (err e) = err e

unfoldable pub embed_openai : Openai → Result EmbedConfig
unfolding embed_config validate_embed_settings settings
embed_openai a = embed_config "openai" (validate_embed_settings (settings (openai_arguments a)))

abbrev pub qdrant_arguments : Qdrant → List Setting
qdrant_arguments a =
    always "url" (text a.url)
    ∷ always "collection" (text a.collection)
    ∷ if_text "api_token_env" a.api_token_env
    ∷ access a.access

unfoldable pub qdrant : Qdrant → IndexConfig
unfolding settings
qdrant a = record { type = "qdrant"; config = settings (qdrant_arguments a) }

abbrev pub elasticsearch_arguments : Elasticsearch → List Setting
elasticsearch_arguments a =
    always "url" (text a.url)
    ∷ always "index" (text a.index)
    ∷ if_text "api_token_env" a.api_token_env
    ∷ if_text "username" a.username
    ∷ access a.access

unfoldable pub elasticsearch : Elasticsearch → IndexConfig
unfolding settings
elasticsearch a = record { type = "elasticsearch"; config = settings (elasticsearch_arguments a) }

abbrev pub memory : IndexConfig
memory = record { type = "memory"; config = [] }

abbrev pub sqlite : String → IndexConfig
sqlite path = record { type = "sqlite"; config = ("path", text path) ∷ [] }

abbrev pub pgvector_arguments : Pgvector → List Setting
pgvector_arguments a =
    if_text "dsn" a.dsn
    ∷ if_text "dsn_env" a.dsn_env
    ∷ unless_text "table" "alvis_chunks" a.table
    ∷ []

unfoldable pub pgvector : Pgvector → IndexConfig
unfolding settings
pgvector a = record { type = "pgvector"; config = settings (pgvector_arguments a) }

abbrev auto_chunk : ChunkConfig
auto_chunk = record { strategy = "auto"; config = [] }

-- `pipeline`; a block that is not given is made with its defaults.
abbrev pub pipeline :
    SourceConfig
    → Option ChunkConfig
    → Option IndexConfig
    → Option ExtractConfig
    → Option EmbedConfig
    → PipelineConfig
pipeline source chunking index extraction embedding = record {
  schema_version = 1;
  source = source;
  extract = or_default extract extraction;
  chunk = or_default auto_chunk chunking;
  embed = or_default embed embedding;
  index = index;
}
