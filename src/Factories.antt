-- ===== src/Factories.antt =====
-- factories.py: the adapters that a configuration names.
pub mod Supported
pub mod Passing
pub mod Identity
pub mod Defaults
use alvis.Base.{String, ◌<>◌, ℕ, Bool, true, false, not, Option, none, some, List, [], ◌∷◌}
use alvis.Base.{Eq, ◌==◌, string_eq, if◌then◌else◌}
use alvis.Base.Dict.{Dict, lookup, filter_items}
use alvis.Value.{Value, null, num, text, or_null}
use alvis.Errors.{Error, config_error, other_error, Result, ok, err}
use alvis.Config.{
  Settings, SourceConfig, ExtractConfig, ChunkConfig, EmbedConfig, IndexConfig, max_tokens, overlap,
  max_chars, overlap_chars, cache_enabled, cache_path,
}
use alvis.Plugins.{PluginRegistry, factory_of}

-- How a built-in class is called: with the settings and a cap on bytes, with the settings, without
-- arguments.
pub data Signature : Type 0 where
  capped plain bare : Signature

-- An adapter: a built-in class with its keyword arguments, or a plugin's factory called with the
-- block of the configuration and, for a source, the cap; and an embedder in a cache, in a file if it
-- has a path.
pub data Adapter (F : Type 0) : Type 0 where
  builtin : String → Settings → Adapter F
  plugged : F → Settings → Option Value → Adapter F
  caching : Option String → Adapter F → Adapter F

abbrev pub source_classes : Dict String (String × Signature)
source_classes =
    ("fs", ("FilesystemSource", capped))
    ∷ ("confluence", ("ConfluenceSource", plain))
    ∷ ("github", ("GitHubSource", capped))
    ∷ ("gitlab", ("GitLabSource", capped))
    ∷ ("s3", ("S3Source", capped))
    ∷ ("static_url", ("StaticUrlSource", capped))
    ∷ ("notion", ("NotionSource", plain))
    ∷ ("jira", ("JiraSource", plain))
    ∷ ("sharepoint", ("SharePointSource", capped))
    ∷ ("gdrive", ("GoogleDriveSource", capped))
    ∷ ("none", ("NoneSource", bare))
    ∷ []

abbrev pub index_classes : Dict String (String × Signature)
index_classes =
    ("memory", ("MemoryIndex", bare))
    ∷ ("qdrant", ("QdrantIndex", plain))
    ∷ ("pgvector", ("PgVectorIndex", plain))
    ∷ ("sqlite", ("SqliteIndex", plain))
    ∷ ("elasticsearch", ("ElasticsearchIndex", plain))
    ∷ []

abbrev pub is_present : Option Value → Bool
is_present none = false
is_present (some null) = false
is_present (some v) = true

-- The cap of the source itself goes before the engine's.
cap_of : Settings → Option Value → Value
unfolding lookup string_eq
cap_of settings max_bytes =
    if is_present (lookup "max_bytes" settings)
    then or_null (lookup "max_bytes" settings)
    else or_null max_bytes

arguments : Signature → Settings → Value → Settings
arguments capped settings cap = ("max_bytes", cap) ∷ settings
arguments plain settings cap = settings
arguments bare settings cap = []

drop_key : String → Settings → Settings
unfolding filter_items string_eq
drop_key key = filter_items (λ k v. not (k == key))

-- A path that is false, as the empty text is, is none.
file_of : Option Value → Option String
unfolding string_eq
file_of (some (text path)) = if path == "" then none else some path
file_of _ = none

not_implemented : String → String → Error
not_implemented what name = config_error (what <> " '" <> name <> "' is not implemented")

module _ {F G : Type 0} ⦃same : Eq F⦄ (registry : PluginRegistry F G) where
  -- A plugin's factory for a type that is not built in.
  from_plugin : String → String → Option F → Settings → Option Value → Result (Adapter F)
  unfolding not_implemented
  from_plugin what name (some factory) config cap = ok (plugged factory config cap)
  from_plugin what name none config cap = err (not_implemented what name)

  built :
      String
      → String
      → Option (String × Signature)
      → Option F
      → Settings
      → Settings
      → Option Value
      → Result (Adapter F)
  unfolding from_plugin arguments
  built what name (some (class, signature)) factory config settings cap =
      ok (builtin class (arguments signature settings (or_null cap)))
  built what name none factory config settings cap = from_plugin what name factory config cap

  -- `build_source`; a plugin is given the configuration whole, and the cap.
  unfoldable pub build_source : SourceConfig → Option Value → Result (Adapter F)
  unfolding built cap_of drop_key lookup factory_of string_eq
  build_source c max_bytes =
      let settings = drop_key "acl" c.config in
      built "source type" c.type (lookup c.type source_classes)
        (factory_of "source" c.type registry) c.config (drop_key "max_bytes" settings)
        (some (cap_of settings max_bytes))

  unfoldable pub build_extractor : ExtractConfig → Result (Adapter F)
  unfolding from_plugin factory_of string_eq
  build_extractor c =
      if c.strategy == "auto"
      then ok (builtin "AutoExtractor" [])
      else from_plugin "extract strategy" c.strategy (factory_of "extractor" c.strategy registry)
          c.config none

  -- A setting without a number is the `TypeError` of `int(None)`.
  sized : String → String → String → Option ℕ → Option ℕ → Result (Adapter F)
  sized class budget carried (some n) (some m) =
      ok (builtin class ((budget, num n) ∷ (carried, num m) ∷ []))
  sized class budget carried n m = err (other_error "int() argument must be a number")

  unfoldable pub build_chunker : ChunkConfig → Result (Adapter F)
  unfolding from_plugin sized factory_of string_eq max_tokens overlap max_chars overlap_chars
  build_chunker c =
      if c.strategy == "auto"
      then sized "AutoChunker" "max_tokens" "overlap" (max_tokens c) (overlap c)
      else if c.strategy == "sections"
      then sized "SectionsChunker" "max_tokens" "overlap" (max_tokens c) (overlap c)
      else if c.strategy == "size"
      then sized "SizeChunker" "max_chars" "overlap_chars" (max_chars c) (overlap_chars c)
      else from_plugin "chunk strategy" c.strategy (factory_of "chunker" c.strategy registry)
          c.config none

  cached : Bool → EmbedConfig → Result (Adapter F) → Result (Adapter F)
  unfolding cache_enabled cache_path file_of
  cached enable_cache c (err e) = err e
  cached true c (ok delegate) =
      ok (if cache_enabled c then caching (file_of (cache_path c)) delegate else delegate)
  cached false c (ok delegate) = ok delegate

  delegate_of : EmbedConfig → Result (Adapter F)
  unfolding from_plugin drop_key factory_of string_eq
  delegate_of c =
      if c.type == "default"
      then ok (builtin "HashEmbedder" [])
      else if c.type == "openai"
      then ok (builtin "ApiEmbedder" (drop_key "cache" c.config))
      else from_plugin "embed type" c.type (factory_of "embedder" c.type registry) c.config none

  unfoldable pub build_embedder : Bool → EmbedConfig → Result (Adapter F)
  unfolding cached delegate_of
  build_embedder enable_cache c = cached enable_cache c (delegate_of c)

  unfoldable pub build_indexer : IndexConfig → Result (Adapter F)
  unfolding built lookup factory_of string_eq
  build_indexer c =
      built "index type" c.type (lookup c.type index_classes) (factory_of "indexer" c.type registry)
        c.config c.config none
