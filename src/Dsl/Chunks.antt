-- ===== src/Dsl/Chunks.antt =====
-- The budgets that the DSL is given are those of the chunker.
use alvis.Base.{◌≡◌, refl, true}
use alvis.Base.{string_eq}
use alvis.Dsl.Records.{Chunking}
use alvis.Dsl.Stages.{chunk_arguments}
use alvis.Dsl.Lookups.{distinct_names}

distinct : (a : Chunking) → distinct_names (chunk_arguments a) ≡ true
unfolding distinct_names string_eq
distinct a = refl
