-- ===== src/Lib.antt =====
-- Alvis ingests documents into a vector index and answers questions over it. A run of the pipeline
-- fetches from a source, decides by the document store what has changed, extracts and chunks what
-- has, embeds the chunks through a cache, upserts them into the index, removes what is gone, and
-- commits the new state of the documents. A query searches the index under the caller's principals,
-- fuses rankings, reranks them and cites the hits in an answer.
--
-- Which file models which part (paths from the repository's root):
--   Base, Text       what Python provides: dicts in insertion order, sorted(), the methods of str,
--                    equality; and the lemmas on them
--   Value, Models, Errors, Floats
--                    src/alvis/core/models.py and core/ids.py, the exceptions of errors.py, and float
--                    arithmetic as a parameter
--   DocStore         src/alvis/docstore.py: DocStore with its sources and ledger is a record of two
--                    dicts and the state file; entry, commit, save, record_run, runs and last_run are
--                    the functions of the same names, open_store is the constructor's load
--   Pipeline.Context, Pipeline.Stages.*
--                    src/alvis/pipeline/stages.py: RunContext is a record that each stage takes and
--                    gives back, FetchStage.run is fetch_stage, and so on; `applicable` of a stage is
--                    a guard in Pipeline.Engine
--   Pipeline.Engine  src/alvis/pipeline/engine.py: run_stages is the loop over STAGES, execute is
--                    _execute, run is run with the ledger entry of each outcome
--   Pipeline.Signature
--                    src/alvis/pipeline/engine.py: pipeline_signature
--   Index.*          src/alvis/index: MemoryIndex (memory.py), acl_visible (_acl.py),
--                    cosine_similarity (_math.py), reciprocal_rank_fusion (fusion.py)
--   Embed.Cache      src/alvis/embed/cache.py: CachingEmbedder over the table of cached vectors
--   Chunk.*          src/alvis/chunk: the auto, size and sections strategies
--   Rerank, Answer   src/alvis/rerank.py and src/alvis/answer.py
--   Query            src/alvis/pipeline/runner.py: query_async and answer_async, over an index that is a
--                    record of its two searches
--   Sources.Provider src/alvis/sources/provider.py: ProviderSource over the documents of its providers
--   Sources.Http     src/alvis/sources/http.py: HttpClient.request, over a transport that answers each
--                    attempt
--   Watch            src/alvis/pipeline/runner.py: watch and tick_once are watch_async and _tick_once
--                    under max_parallel=1, one run after the other; happen_all runs a tick whose
--                    pipelines overlap, as a sequence of events
--   Index.Keyword    src/alvis/index/keyword.py: tokenize and bm25_scores
--   Index.Sqlite     src/alvis/index/sqlite.py: SqliteIndex over the rows of its table
--   Config           src/alvis/config/models.py: the blocks of a configuration and their validators
--   Registry, Factories
--                    src/alvis/registry.py and src/alvis/factories.py: a built-in class with its
--                    arguments, or a plugin's factory with the block that it is called with, stands
--                    for the adapter that is built
--   Dsl              src/alvis/dsl.py: a record holds the arguments of a function, a list of Setting the
--                    entries of its dict display. Dsl/Expects says apart from them what a class should receive
--   Environment      src/alvis/env.py: os.environ is a dict, and a file is its text, if there is one
--   Observability    src/alvis/observability.py: Metrics with its dicts of counters and histograms, and
--                    render_plain_text
--   Factories.Defaults
--                    the defaults of the keyword arguments of the classes, from their __init__
--   Plugins          src/alvis/plugin.py: PluginRegistry with install, factory and discover; the map from
--                    kinds to factories is a function, the loading of an entry point a parameter
--   Extract.Json     src/alvis/extract/json.py: the flattening of a parsed value
--   Extract.Markdown src/alvis/extract/markdown.py: the loop over the lines, heading by heading
--   Evaluation       src/alvis/evaluation.py: evaluate_async without llm and judge, over the query
--   Tests            runs on concrete data, and the theorems at inputs that meet their hypotheses
--
-- How code becomes definitions. A method that changes state and may raise is a function from the
-- state to a result and the state, since what was written before a raise stays written. Whole texts
-- are native strings; where the code walks a text it is a list of characters. The bytes of an
-- artifact are a text. Durations and JSON numbers are natural numbers, metadata is a dict of values,
-- and sets are lists of their elements. Floats are a type with operations, of which a theorem assumes
-- only what it names. A regular expression is the automaton that accepts the same texts, with ASCII
-- digits for `\d`.
--
-- In a tick whose pipelines overlap, a run opens its store in one event and ends in another; the two
-- writes that a run makes at its end, of its documents and of its ledger, are one event. The rows of
-- the SQLite table are read in the order of their insertion; the set of terms of a BM25 query is walked
-- in the order of their first occurrence.
--
-- Parameters: source, extractor, chunker, embedder and index of a run are functions (Adapters), as are
-- SHA-256, uuid5 and repr, `math.log`, the method `lower` of texts and the codec of the JSON columns,
-- which gives back what it has encoded. The reply of the chat endpoint is a result, a text or an error.
--
-- Loops are recursions over the list that they walk. The loop of the size strategy moves a position
-- and runs on fuel, the length of the text: each round moves the position forward, and
-- further fuel gives the same slices.
--
-- Not modelled: logs, the places where a run records metrics, the closing of clients, the file system
-- below the state file and failures to write it, the concurrency inside a run (stages run one after
-- the other, and the code gathers results in the order of its items), waiting, the connectors and the
-- clients of external services beyond the defaults of their arguments, the command line.
pub mod Answer
pub mod Base
pub mod Chunk
pub mod Config
pub mod DocStore
pub mod Dsl
pub mod Embed
pub mod Environment
pub mod Errors
pub mod Evaluation
pub mod Extract
pub mod Factories
pub mod Floats
pub mod Index
pub mod Models
pub mod Observability
pub mod Pipeline
pub mod Plugins
pub mod Query
pub mod Registry
pub mod Rerank
pub mod Sources
pub mod Tests
pub mod Text
pub mod Value
pub mod Watch
