-- ===== src/Tests/ConfigRuns.antt =====
-- Configurations that pass their checks, and what is built of them.
use alvis.Base.{true, ◌≡◌, refl, ◌↔◌, none, some, [], ◌∷◌, string_eq}
use alvis.Value.{null, num, text}
use alvis.Errors.{ok, err, other_error}
use alvis.Config.{ChunkConfig, PipelineConfig}
use alvis.Plugins.{install}
use alvis.Registry.{check_pipeline_supported}
use alvis.Factories.{build_chunker, build_source, build_extractor, build_embedder, plugged}
use alvis.Factories.Supported.{IsImplemented, IndexImplemented, check_pipeline_supported_iff}
use alvis.Tests.PluginRuns.{installed}

abbrev small : ChunkConfig
small = record { strategy = "auto"; config = ("max_tokens", num 10) ∷ ("overlap", null) ∷ [] }

-- A plugin's source and chunker, and an index that is built in.
abbrev catalog_pipeline : PipelineConfig
catalog_pipeline = record {
  schema_version = 1;
  source = record { type = "catalog"; config = [] };
  extract = record { strategy = "auto"; config = [] };
  chunk = record { strategy = "lines"; config = [] };
  embed = record { type = "default"; config = [] };
  index = some (record { type = "sqlite"; config = ("path", text "x.db") ∷ [] });
}

-- The settings passed validation, and the chunker cannot be built.
null_fails : build_chunker installed small ≡ err (other_error "int() argument must be a number")
unfolding build_chunker string_eq
null_fails = refl

from_plugin_built :
    build_source installed catalog_pipeline.source none ≡ ok (plugged "f1" [] (some null))
unfolding build_source installed install string_eq
from_plugin_built = refl

check_pipeline_supported_iff_example :
    (check_pipeline_supported installed
        (λ xs. "")
        "catalog"
        "auto"
        "lines"
        "default"
        (some "sqlite")
      ≡ [])
    ↔ (IsImplemented (build_source installed catalog_pipeline.source none)
        × (IsImplemented (build_extractor installed catalog_pipeline.extract)
            × (IsImplemented (build_chunker installed catalog_pipeline.chunk)
                × (IsImplemented (build_embedder installed true catalog_pipeline.embed)
                    × IndexImplemented installed catalog_pipeline.index))))
check_pipeline_supported_iff_example =
    check_pipeline_supported_iff installed (λ xs. "") catalog_pipeline none true
