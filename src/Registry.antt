-- ===== src/Registry.antt =====
-- registry.py: the adapter types that a configuration may name, built in or of a plugin.
use alvis.Base.{String, ◌<>◌, Option, none, some, List, [], ◌∷◌, ◌++◌}
use alvis.Base.{string_eq, contains, if◌then◌else◌}
use alvis.Base.Dict.{keys}
use alvis.Plugins.{PluginRegistry}

abbrev pub builtin_sources : List String
builtin_sources =
    "fs" ∷ "confluence" ∷ "github" ∷ "gitlab" ∷ "s3" ∷ "static_url" ∷ "notion" ∷ "jira"
    ∷ "sharepoint" ∷ "gdrive" ∷ "none" ∷ []

abbrev pub builtin_extract_strategies : List String
builtin_extract_strategies = "auto" ∷ []

abbrev pub builtin_chunk_strategies : List String
builtin_chunk_strategies = "auto" ∷ "sections" ∷ "size" ∷ []

abbrev pub builtin_embedders : List String
builtin_embedders = "default" ∷ "openai" ∷ []

abbrev pub builtin_indexes : List String
builtin_indexes = "memory" ∷ "qdrant" ∷ "pgvector" ∷ "sqlite" ∷ "elasticsearch" ∷ []

-- A problem with a type that is not known; `listed` shows the known ones.
unfoldable pub problem : (List String → String) → String → String → List String → List String
unfolding string_eq
problem listed what name known =
    if contains name known
    then []
    else ("unsupported " <> what <> ": '" <> name <> "' (known: " <> listed known <> ")") ∷ []

module _ {F G : Type 0} (registry : PluginRegistry F G) where
  -- `_plugin_types`
  unfoldable pub plugin_types : String → List String
  plugin_types kind = keys (registry.by_kind kind)

  unfoldable pub known_sources : List String
  unfolding plugin_types
  known_sources = builtin_sources ++ plugin_types "source"

  unfoldable pub known_extract_strategies : List String
  unfolding plugin_types
  known_extract_strategies = builtin_extract_strategies ++ plugin_types "extractor"

  unfoldable pub known_chunk_strategies : List String
  unfolding plugin_types
  known_chunk_strategies = builtin_chunk_strategies ++ plugin_types "chunker"

  unfoldable pub known_embedders : List String
  unfolding plugin_types
  known_embedders = builtin_embedders ++ plugin_types "embedder"

  unfoldable pub known_indexes : List String
  unfolding plugin_types
  known_indexes = builtin_indexes ++ plugin_types "indexer"

  unfoldable pub index_problem : (List String → String) → Option String → List String
  unfolding problem known_indexes
  index_problem listed none = []
  index_problem listed (some index) = problem listed "index type" index known_indexes

  -- `check_pipeline_supported`, where `listed` shows a sorted set
  unfoldable pub check_pipeline_supported :
      (List String → String) → String → String → String → String → Option String → List String
  unfolding problem index_problem known_sources known_extract_strategies known_chunk_strategies
      known_embedders
  check_pipeline_supported listed source extract chunk embed index =
      problem listed "source type" source known_sources
      ++ (problem listed "extract strategy" extract known_extract_strategies
          ++ (problem listed "chunk strategy" chunk known_chunk_strategies
              ++ (problem listed "embed type" embed known_embedders ++ index_problem listed index)))
