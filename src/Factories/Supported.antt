-- ===== src/Factories/Supported.antt =====
-- A configuration whose types are known can be built, and no other.
use alvis.Base.{
  String, ℕ, ◌≡◌, refl, ap, ◌∙◌, ◌↔◌, Bool, true, false, ◌||◌, Option, none, some, List, [], ◌∷◌,
  ◌++◌, arith,
}
use alvis.Base.{Eq, ◌==◌, string_eq, contains, contains-append, if◌then◌else◌, is_some}
use mathlib.Core.Bool.{false≢true}
use alvis.Base.Dict.{Dict, keys, lookup}
use alvis.Value.{Value}
use alvis.Errors.{config_error, Result, ok, err}
use alvis.Config.{
  Settings, SourceConfig, ExtractConfig, ChunkConfig, EmbedConfig, IndexConfig, max_tokens, overlap,
  max_chars, overlap_chars,
}
use alvis.Plugins.{PluginRegistry, factory_of}
use alvis.Config.{PipelineConfig}
use alvis.Registry.{
  problem, index_problem, plugin_types, known_sources, known_extract_strategies,
  known_chunk_strategies, known_embedders, known_indexes, check_pipeline_supported, builtin_sources,
  builtin_extract_strategies, builtin_chunk_strategies, builtin_embedders, builtin_indexes,
}
use alvis.Factories.{
  Signature, Adapter, source_classes, index_classes, built, from_plugin, sized, cached, delegate_of,
  not_implemented, build_source, build_extractor, build_chunker, build_embedder, build_indexer,
}

-- Building does not end with an error of the configuration.
abbrev pub IsImplemented : {F : Type 0} → Result (Adapter F) → Type 0
IsImplemented (err (config_error m)) = ⊥
IsImplemented _ = Unit {0}

contains-keys :
    {V : Type 0} (t : String) (d : Dict String V) → contains t (keys d) ≡ is_some (lookup t d)
unfolding lookup
contains-keys t [] = refl
contains-keys t ((k, v) ∷ d) = ground (arith, contains-keys t d)

++-eq-nil : {A : Type 0} (xs ys : List A) → (xs ++ ys ≡ []) ↔ ((xs ≡ []) × (ys ≡ []))
++-eq-nil [] ys = (λ h. (refl, h), λ h. h.1)
++-eq-nil (x ∷ xs) ys = (λ h. cc, λ h. cc)

problem_iff :
    (listed : List String → String) (what name : String) (known : List String)
    → (problem listed what name known ≡ []) ↔ (contains name known ≡ true)
unfolding problem
problem_iff listed what name known = ground arith

one_or : (a r : Bool) → ((a || false) || r) ≡ (a || r)
one_or a r = ground arith

two_or : (a b r : Bool) → ((a || (b || false)) || r) ≡ (a || (b || r))
two_or a b r = ground arith

three_or : (a b c r : Bool) → ((a || (b || (c || false))) || r) ≡ (a || (b || (c || r)))
three_or a b c r = ground arith

iff_trans : {A B C : Type 0} → A ↔ B → B ↔ C → A ↔ C
iff_trans f g = (λ a. g.0 (f.0 a), λ c. f.1 (g.1 c))

iff_pair : {A B C D : Type 0} → A ↔ B → C ↔ D → (A × C) ↔ (B × D)
iff_pair f g = (λ (a, c). (f.0 a, g.0 c), λ (b, d). (f.1 b, g.1 d))

-- A type is known exactly if a test passes that has the same value.
problem_of :
    (listed : List String → String) (what name : String) (known : List String) (b : Bool)
    → contains name known ≡ b
    → (problem listed what name known ≡ []) ↔ (b ≡ true)
problem_of listed what name known b e = rw (← e) (problem_iff listed what name known)

module _ {F G : Type 0} ⦃same : Eq F⦄ (registry : PluginRegistry F G) where
  plugin_iff :
      (what name : String) (factory : Option F) (config : Settings) (cap : Option Value)
      → (is_some factory ≡ true) ↔ IsImplemented (from_plugin registry what name factory config cap)
  unfolding from_plugin not_implemented
  plugin_iff what name none config cap = (λ h. absurd (false≢true h), λ h. absurd h)
  plugin_iff what name (some factory) config cap = (λ h. tt, λ h. refl)

  choose_iff :
      (b rest : Bool) (r r' : Result (Adapter F))
      → IsImplemented r
      → (rest ≡ true) ↔ IsImplemented r'
      → ((b || rest) ≡ true) ↔ IsImplemented (if b then r else r')
  choose_iff true rest r r' h k = (λ _. h, λ _. refl)
  choose_iff false rest r r' h k = k

  built_iff :
      (what name : String) (o : Option (String × Signature)) (factory : Option F)
      → (config settings : Settings) (cap : Option Value)
      → ((is_some o || is_some factory) ≡ true)
        ↔ IsImplemented (built registry what name o factory config settings cap)
  unfolding built
  built_iff what name (some c) factory config settings cap = (λ h. tt, λ h. refl)
  built_iff what name none factory config settings cap = plugin_iff what name factory config cap

  known_of :
      (t kind : String) (builtins : List String)
      → contains t (builtins ++ plugin_types registry kind)
        ≡ (contains t builtins || is_some (factory_of kind t registry))
  unfolding plugin_types factory_of
  known_of t kind builtins =
      contains-append t builtins (keys (registry.by_kind kind))
      ∙ ap (λ b. contains t builtins || b) (contains-keys t (registry.by_kind kind))

  sized-IsImplemented :
      (class budget carried : String) (n m : Option ℕ)
      → IsImplemented (sized registry class budget carried n m)
  unfolding sized
  sized-IsImplemented class budget carried (some n) (some m) = tt
  sized-IsImplemented class budget carried (some n) none = tt
  sized-IsImplemented class budget carried none m = tt

  cached_iff :
      (enable_cache : Bool) (c : EmbedConfig) (r : Result (Adapter F))
      → IsImplemented r ↔ IsImplemented (cached registry enable_cache c r)
  unfolding cached
  cached_iff e c (err (config_error m)) = (λ h. h, λ h. h)
  cached_iff e c (err x) = (λ h. h, λ h. h)
  cached_iff true c (ok delegate) = (λ h. tt, λ h. tt)
  cached_iff false c (ok delegate) = (λ h. tt, λ h. tt)

  source_iff :
      (listed : List String → String) (c : SourceConfig) (max_bytes : Option Value)
      → (problem listed "source type" c.type (known_sources registry) ≡ [])
        ↔ IsImplemented (build_source registry c max_bytes)
  unfolding build_source known_sources
  source_iff listed c max_bytes =
      iff_trans
        (problem_of listed "source type" c.type (known_sources registry)
          (is_some (lookup c.type source_classes) || is_some (factory_of "source" c.type registry))
          (known_of c.type "source" builtin_sources
            ∙ ap (λ b. b || is_some (factory_of "source" c.type registry))
                (contains-keys c.type source_classes)))
        (built_iff "source type" c.type (lookup c.type source_classes)
          (factory_of "source" c.type registry) c.config _ _)

  index_iff :
      (listed : List String → String) (c : IndexConfig)
      → (problem listed "index type" c.type (known_indexes registry) ≡ [])
        ↔ IsImplemented (build_indexer registry c)
  unfolding build_indexer known_indexes
  index_iff listed c =
      iff_trans
        (problem_of listed "index type" c.type (known_indexes registry)
          (is_some (lookup c.type index_classes) || is_some (factory_of "indexer" c.type registry))
          (known_of c.type "indexer" builtin_indexes
            ∙ ap (λ b. b || is_some (factory_of "indexer" c.type registry))
                (contains-keys c.type index_classes)))
        (built_iff "index type" c.type (lookup c.type index_classes)
          (factory_of "indexer" c.type registry) c.config _ _)

  extractor_iff :
      (listed : List String → String) (c : ExtractConfig)
      → (problem listed "extract strategy" c.strategy (known_extract_strategies registry) ≡ [])
        ↔ IsImplemented (build_extractor registry c)
  unfolding build_extractor known_extract_strategies
  extractor_iff listed c =
      iff_trans
        (problem_of listed "extract strategy" c.strategy (known_extract_strategies registry) _ (
          known_of c.strategy "extractor" builtin_extract_strategies
          ∙ one_or (c.strategy == "auto") _))
        (choose_iff (c.strategy == "auto") (is_some (factory_of "extractor" c.strategy registry)) _
          _ tt (plugin_iff _ _ (factory_of "extractor" c.strategy registry) _ _))

  chunker_iff :
      (listed : List String → String) (c : ChunkConfig)
      → (problem listed "chunk strategy" c.strategy (known_chunk_strategies registry) ≡ [])
        ↔ IsImplemented (build_chunker registry c)
  unfolding build_chunker known_chunk_strategies
  chunker_iff listed c =
      let factory = factory_of "chunker" c.strategy registry in
      iff_trans
        (problem_of listed "chunk strategy" c.strategy (known_chunk_strategies registry) _ (
          known_of c.strategy "chunker" builtin_chunk_strategies
          ∙ three_or (c.strategy == "auto") (c.strategy == "sections") (c.strategy == "size")
              (is_some factory)))
        (choose_iff (c.strategy == "auto") _ _ _
          (sized-IsImplemented "AutoChunker" "max_tokens" "overlap" (max_tokens c) (overlap c))
          (choose_iff (c.strategy == "sections") _ _ _
            (sized-IsImplemented "SectionsChunker" "max_tokens" "overlap" (max_tokens c)
              (overlap c))
            (choose_iff (c.strategy == "size") _ _ _
              (sized-IsImplemented "SizeChunker" "max_chars" "overlap_chars" (max_chars c)
                (overlap_chars c))
              (plugin_iff _ _ factory _ _))))

  embedder_iff :
      (listed : List String → String) (enable_cache : Bool) (c : EmbedConfig)
      → (problem listed "embed type" c.type (known_embedders registry) ≡ [])
        ↔ IsImplemented (build_embedder registry enable_cache c)
  unfolding build_embedder known_embedders delegate_of
  embedder_iff listed enable_cache c =
      let factory = factory_of "embedder" c.type registry in
      iff_trans
        (problem_of listed "embed type" c.type (known_embedders registry) _ (
          known_of c.type "embedder" builtin_embedders
          ∙ two_or (c.type == "default") (c.type == "openai") (is_some factory)))
        (iff_trans
          (choose_iff (c.type == "default") _ _ _ tt
            (choose_iff (c.type == "openai") _ _ _ tt (plugin_iff _ _ factory _ _)))
          (cached_iff enable_cache c (delegate_of registry c)))

  abbrev pub type_of : Option IndexConfig → Option String
  type_of none = none
  type_of (some c) = some c.type

  -- The index, if there is one, can be built.
  abbrev pub IndexImplemented : Option IndexConfig → Type 0
  IndexImplemented none = Unit {0}
  IndexImplemented (some c) = IsImplemented (build_indexer registry c)

  index_problem_iff :
      (listed : List String → String) (o : Option IndexConfig)
      → (index_problem registry listed (type_of o) ≡ []) ↔ IndexImplemented o
  unfolding index_problem
  index_problem_iff listed none = (λ h. tt, λ h. refl)
  index_problem_iff listed (some c) = index_iff listed c

  -- The check of the types of a configuration finds no problem exactly if building its source, its
  -- extractor, its chunker, its embedder and its index, if it has one, does not end with an error of the
  -- configuration: what is accepted is implemented, also by plugins, and what is implemented is
  -- accepted.
  pub check_pipeline_supported_iff :
      (listed : List String → String) (c : PipelineConfig) (max_bytes : Option Value) (cache : Bool)
      → (check_pipeline_supported registry listed c.source.type c.extract.strategy c.chunk.strategy
            c.embed.type
            (type_of c.index)
          ≡ [])
        ↔ (IsImplemented (build_source registry c.source max_bytes)
            × (IsImplemented (build_extractor registry c.extract)
                × (IsImplemented (build_chunker registry c.chunk)
                    × (IsImplemented (build_embedder registry cache c.embed)
                        × IndexImplemented c.index))))
  unfolding check_pipeline_supported
  check_pipeline_supported_iff listed c max_bytes cache = iff_trans (++-eq-nil _ _) (
      iff_pair (source_iff listed c.source max_bytes) (
        iff_trans (++-eq-nil _ _) (
          iff_pair (extractor_iff listed c.extract) (
            iff_trans (++-eq-nil _ _) (
              iff_pair (chunker_iff listed c.chunk) (
                iff_trans (++-eq-nil _ _) (
                  iff_pair (embedder_iff listed cache c.embed)
                    (index_problem_iff listed c.index))))))))
