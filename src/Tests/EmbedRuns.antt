-- ===== src/Tests/EmbedRuns.antt =====
-- The cached embedder on small data.
use Prim.Native.String.{count}
use alvis.Base.{String, ℕ, ◌+◌, ◌≡◌, refl, ap, List, [], ◌∷◌, map, string_eq}
use alvis.Base.Dict.{lookup}
use alvis.Models.{Chunk}
use alvis.Errors.{Result, ok}
use alvis.Embed.Cache.{CachingEmbedder, fresh, embed_batch}
use alvis.Embed.Cache.Equivalence.{IsSound, embed_batch-eq-delegate}
use alvis.Tests.Fixtures.{plain, chunk_a, chunk_b}

-- The number of characters stands for a vector.
abbrev size : String → ℕ
size s = count s

abbrev delegate : List Chunk → Result (List ℕ)
delegate chunks = ok (map (λ c. size c.text) chunks)

warm : CachingEmbedder ℕ
unfolding embed_batch string_eq
warm = (embed_batch plain "default" delegate (chunk_a ∷ []) fresh).1

second_run :
    (embed_batch plain "default" delegate (chunk_a ∷ chunk_b ∷ []) warm).0 ≡ ok (5 ∷ 4 ∷ [])
unfolding embed_batch warm
second_run = refl

counted : (embed_batch plain "default" delegate (chunk_a ∷ chunk_b ∷ []) warm).1.cache_hits ≡ 1
unfolding embed_batch warm
counted = refl

embed_batch-eq-delegate_example :
    (c' : CachingEmbedder ℕ) × (embed_batch plain "default" delegate (chunk_a ∷ chunk_b ∷ []) fresh
      ≡ (delegate (chunk_a ∷ chunk_b ∷ []), c'))
    × IsSound plain "default" size (λ t u e. ap size e) c'
    × (c'.cache_hits + c'.cache_misses ≡ 2)
unfolding lookup
embed_batch-eq-delegate_example =
    embed_batch-eq-delegate plain "default" size (λ t u e. ap size e) delegate (λ chunks. refl)
      (chunk_a ∷ chunk_b ∷ []) fresh (λ t v h. cc)
