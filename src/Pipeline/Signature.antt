-- ===== src/Pipeline/Signature.antt =====
-- pipeline/engine.py: the signature under which the document state is kept. The text of JSON and the
-- digest have types of their own, `D` and `S`.
pub mod Changes
use alvis.Base.{String, ℕ, Option, none, some, string_eq}
use alvis.Base.Dict.{lookup}
use alvis.Value.{Value, num, text, obj, Fields, end, field, or_null}
use alvis.Errors.{Result, ok, err, other_error}
use alvis.Config.{ChunkConfig, PipelineConfig, max_tokens, overlap, max_chars, overlap_chars}

-- The block of the chunk settings, whose numbers are converted.
chunk_block : String → Option ℕ → Option ℕ → Option ℕ → Option ℕ → Result Value
chunk_block strategy (some a) (some b) (some c) (some d) = ok (
    obj (
      field "strategy" (text strategy) (
        field "max_tokens" (num a) (
          field "overlap" (num b)
            (field "max_chars" (num c) (field "overlap_chars" (num d) end))))))
chunk_block strategy a b c d = err (other_error "int() argument must be a number")

payload_of : PipelineConfig → Result Value → Result Value
unfolding lookup string_eq
payload_of c (err e) = err e
payload_of c (ok chunk) = ok (
    obj (
      field "extract" (text c.extract.strategy) (
        field "chunk" chunk (
          field "embed_type" (text c.embed.type) (
            field "embed_model" (or_null (lookup "model" c.embed.config))
              (field "source_acl" (or_null (lookup "acl" c.source.config)) end))))))

unfoldable pub payload : PipelineConfig → Result Value
unfolding payload_of chunk_block max_tokens overlap max_chars overlap_chars
payload c = payload_of c (
    chunk_block c.chunk.strategy (max_tokens c.chunk) (overlap c.chunk) (max_chars c.chunk)
      (overlap_chars c.chunk))

digested : {D S : Type 0} → (Value → D) → (D → S) → Result Value → Result S
digested dumps sha256 (ok v) = ok (sha256 (dumps v))
digested dumps sha256 (err e) = err e

-- `pipeline_signature`, for `json.dumps` with sorted keys and SHA-256
unfoldable pub pipeline_signature :
    {D S : Type 0} → (Value → D) → (D → S) → PipelineConfig → Result S
unfolding payload digested
pipeline_signature dumps sha256 c = digested dumps sha256 (payload c)
