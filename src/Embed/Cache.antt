-- ===== src/Embed/Cache.antt =====
-- embed/cache.py: `CachingEmbedder` over a cache and a delegate.
pub mod Equivalence
use alvis.Base.{String, ◌<>◌, ℕ, ◌+◌, Option, none, some, List, [], ◌∷◌, map}
use alvis.Base.{Eq, ◌==◌, string_eq, if◌then◌else◌}
use alvis.Base.Dict.{Dict, lookup, insert}
use alvis.Models.{Chunk}
use alvis.Errors.{Result, ok, err, value_error}

-- `V` is the type of vectors. The cache is the dict of `InMemoryEmbeddingCache`; a file cache has
-- the same `get` and `set`.
pub record CachingEmbedder (V : Type 0) : Type 0 where
  pub store : Dict String V
  pub cache_hits : ℕ
  pub cache_misses : ℕ

abbrev pub fresh : {V : Type 0} → CachingEmbedder V
fresh = record { store = []; cache_hits = 0; cache_misses = 0 }

module _ (sha256 : String → String) (signature : String) where
  unfoldable pub cache_key : String → String
  cache_key text = signature <> ":" <> sha256 text

module _ {V : Type 0} where
  -- `if cached is None`
  count_lookup : Option V → CachingEmbedder V → CachingEmbedder V
  count_lookup none c = record c { cache_misses = c.cache_misses + 1 }
  count_lookup (some v) c = record c { cache_hits = c.cache_hits + 1 }

  -- The loop over the keys: the vector found for each, and the counts.
  look_up_all : List String → CachingEmbedder V → List (Option V) × CachingEmbedder V
  unfolding lookup count_lookup
  look_up_all [] c = ([], c)
  look_up_all (key ∷ keys) c =
      let cached = lookup key c.store in
      let (vectors, c') = look_up_all keys (count_lookup cached c) in (cached ∷ vectors, c')

  -- `[chunks[i] for i in missing]`
  missing : List Chunk → List (Option V) → List Chunk
  missing (c ∷ chunks) (none ∷ vectors) = c ∷ missing chunks vectors
  missing (c ∷ chunks) (some v ∷ vectors) = missing chunks vectors
  missing _ _ = []

  after : V → Result (List V) → Result (List V)
  after v (ok vs) = ok (v ∷ vs)
  after v (err e) = err e

  -- The loop over the computed vectors, with `strict=True`: each fills the next gap and is stored.
  fill :
      List String
      → List (Option V)
      → List V
      → CachingEmbedder V
      → Result (List V) × CachingEmbedder V
  unfolding after insert
  fill (key ∷ keys) (some v ∷ vectors) computed c =
      let (r, c') = fill keys vectors computed c in (after v r, c')
  fill (key ∷ keys) (none ∷ vectors) (v ∷ computed) c =
      let (r, c') = fill keys vectors computed (record c { store = insert key v c.store }) in
      (after v r, c')
  fill [] [] [] c = (ok [], c)
  fill _ _ _ c = (err (value_error "zip() arguments have different lengths"), c)

  finish :
      List String
      → List (Option V)
      → Result (List V)
      → CachingEmbedder V
      → Result (List V) × CachingEmbedder V
  unfolding fill
  finish keys vectors (ok computed) c = fill keys vectors computed c
  finish keys vectors (err e) c = (err e, c)

  -- `if missing: computed = await self.delegate.embed_batch(...)`
  compute : (List Chunk → Result (List V)) → List Chunk → Result (List V)
  compute delegate [] = ok []
  compute delegate (m ∷ more) = delegate (m ∷ more)

  -- If the delegate raises, the counts have changed and the store has not.
  unfoldable pub embed_batch :
      (String → String)
      → String
      → (List Chunk → Result (List V))
      → List Chunk
      → CachingEmbedder V
      → Result (List V) × CachingEmbedder V
  unfolding cache_key look_up_all missing finish compute
  embed_batch sha256 signature delegate chunks c =
      let keys = map (λ (chunk : Chunk). cache_key sha256 signature chunk.text) chunks in
      let (vectors, c') = look_up_all keys c in
      finish keys vectors (compute delegate (missing chunks vectors)) c'
