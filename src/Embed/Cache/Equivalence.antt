-- ===== src/Embed/Cache/Equivalence.antt =====
-- A cached embedder gives the vectors of its delegate.
use text.Mathlib.TextLemmas.{append_cancel_left}
use alvis.Base.{
  String, ◌<>◌, ◌+◌, ◌≡◌, refl, ap, sym, ◌∙◌, ◌⊎◌, inl, inr, Option, none, some, List, [], ◌∷◌, map,
  arith,
}
use alvis.Base.{◌==◌, string_eq, length, Bool-cases, Option-cases, ==→eq}
use alvis.Base.Dict.{lookup, insert, lookup-insert}
use alvis.Models.{Chunk}
use alvis.Errors.{Result, ok}
use alvis.Embed.Cache.{
  CachingEmbedder, cache_key, look_up_all, count_lookup, missing, fill, finish, compute,
  embed_batch,
}

store-count_lookup :
    {V : Type 0} (o : Option V) (c : CachingEmbedder V) → (count_lookup o c).store ≡ c.store
unfolding count_lookup
store-count_lookup o c = ground arith

counts-count_lookup :
    {V : Type 0} (o : Option V) (c : CachingEmbedder V)
    → (count_lookup o c).cache_hits + (count_lookup o c).cache_misses
      ≡ c.cache_hits + c.cache_misses + 1
unfolding count_lookup
counts-count_lookup o c = ground arith

module _ {V : Type 0} (sha256 : String → String) (signature : String) (f : String → V)
    (no_collision : (t u : String) → sha256 t ≡ sha256 u → f t ≡ f u) where
  -- Texts with one key have one digest, so one vector.
  same_vector :
      (t u : String) → cache_key sha256 signature t ≡ cache_key sha256 signature u → f t ≡ f u
  unfolding cache_key
  same_vector t u e = no_collision t u (
      append_cancel_left ":" (sha256 t) (sha256 u)
        (append_cancel_left signature (":" <> sha256 t) (":" <> sha256 u) e))

  abbrev key_of : Chunk → String
  key_of chunk = cache_key sha256 signature chunk.text

  abbrev vector_of : Chunk → V
  vector_of chunk = f chunk.text

  -- What is stored under the key of a text is the vector of the text.
  abbrev pub IsSound : CachingEmbedder V → Type 0
  IsSound c =
      (t : String) (v : V) → lookup (cache_key sha256 signature t) c.store ≡ some v → v ≡ f t

  abbrev Partial : List Chunk → List (Option V) → Type 0
  Partial [] [] = Unit
  Partial [] (o ∷ os) = ⊥
  Partial (c ∷ cs) [] = ⊥
  Partial (c ∷ cs) (o ∷ os) = ((o ≡ none) ⊎ (o ≡ some (vector_of c))) × Partial cs os

  insert-IsSound :
      (t : String) (c : CachingEmbedder V)
      → IsSound c
      → IsSound (record c { store = insert (cache_key sha256 signature t) (f t) c.store })
  insert-IsSound t c sound u v e =
      elim (Bool-cases (cache_key sha256 signature u == cache_key sha256 signature t)) [
        | inl same ↦ ground (
          arith,
          lookup-insert (cache_key sha256 signature u) (cache_key sha256 signature t) (f t) c.store,
          same_vector u t (==→eq _ _ same),
        )
        | inr other ↦ sound u v (
            ground (
              arith,
              lookup-insert (cache_key sha256 signature u) (cache_key sha256 signature t) (f t)
                  c.store,
            ))
      ]

  cached_cases :
      (chunk : Chunk) (c : CachingEmbedder V)
      → IsSound c
      → (lookup (key_of chunk) c.store ≡ none)
        ⊎ (lookup (key_of chunk) c.store ≡ some (vector_of chunk))
  cached_cases chunk c sound = elim (Option-cases (lookup (key_of chunk) c.store)) [
    | inl e ↦ inl e
    | inr t ↦ inr (t.1 ∙ ap some (sound chunk.text t.0 t.1))
  ]

  -- The first loop: the store stays, each vector is missing or right, every key is counted.
  look_up_all_lem :
      (chunks : List Chunk) (c : CachingEmbedder V)
      → IsSound c
      → Partial chunks (look_up_all (map key_of chunks) c).0
        × ((look_up_all (map key_of chunks) c).1.store ≡ c.store)
        × ((look_up_all (map key_of chunks) c).1.cache_hits
              + (look_up_all (map key_of chunks) c).1.cache_misses
            ≡ c.cache_hits + c.cache_misses + length chunks)
  unfolding look_up_all
  look_up_all_lem [] c sound = (tt, refl, omega arith)
  look_up_all_lem (chunk ∷ chunks) c sound =
      let cached = lookup (key_of chunk) c.store in
      let (p, q, r) =
        look_up_all_lem chunks (count_lookup cached c) (rw (store-count_lookup cached c) sound) in
      (
        (cached_cases chunk c sound, p),
        q ∙ store-count_lookup cached c,
        omega (arith, r, counts-count_lookup cached c),
      )

  fill_lem :
      (chunks : List Chunk) (vectors : List (Option V)) (c : CachingEmbedder V)
      → Partial chunks vectors
      → IsSound c
      → (c' : CachingEmbedder V) × (fill
            (map key_of chunks)
            vectors
            (map vector_of (missing chunks vectors))
            c
          ≡ (ok (map vector_of chunks), c'))
        × IsSound c'
        × (c'.cache_hits + c'.cache_misses ≡ c.cache_hits + c.cache_misses)
  unfolding fill missing
  fill_lem [] [] c p sound = (c, refl, sound, refl)
  fill_lem [] (o ∷ os) c p sound = absurd p
  fill_lem (chunk ∷ chunks) [] c p sound = absurd p
  fill_lem (chunk ∷ chunks) (none ∷ vectors) c p sound =
      let (c', e, sound', counts) =
        fill_lem chunks vectors
          (record c { store = insert (key_of chunk) (vector_of chunk) c.store }) p.1
          (insert-IsSound chunk.text c sound) in
      (c', rw e refl, sound', counts)
  fill_lem (chunk ∷ chunks) (some v ∷ vectors) c p sound =
      let (c', e, sound', counts) = fill_lem chunks vectors c p.1 sound in
      (c', rw e (elim p.0 [ inl q ↦ cc | inr q ↦ cc ]), sound', counts)

  compute_lem :
      (delegate : List Chunk → Result (List V))
      → ((chunks : List Chunk) → delegate chunks ≡ ok (map (λ c. f c.text) chunks))
      → (chunks : List Chunk) → compute delegate chunks ≡ ok (map vector_of chunks)
  unfolding compute
  compute_lem delegate maps [] = refl
  compute_lem delegate maps (c ∷ chunks) = maps (c ∷ chunks)

  -- With a sound store, and digests that differ for texts with different vectors, over a delegate that maps each chunk's text to its
  -- vector, a cached batch returns what the delegate would return for the whole batch, keeps the
  -- store sound, and counts every chunk as a hit or a miss.
  pub embed_batch-eq-delegate :
      (delegate : List Chunk → Result (List V))
      → ((chunks : List Chunk) → delegate chunks ≡ ok (map (λ c. f c.text) chunks))
      → (chunks : List Chunk) (c : CachingEmbedder V) → IsSound c
      → (c' : CachingEmbedder V) × (embed_batch sha256 signature delegate chunks c
          ≡ (delegate chunks, c'))
        × IsSound c'
        × (c'.cache_hits + c'.cache_misses ≡ c.cache_hits + c.cache_misses + length chunks)
  unfolding embed_batch finish
  embed_batch-eq-delegate delegate maps chunks c sound =
      let (p, same, counted) = look_up_all_lem chunks c sound in
      let (vectors, c₁) = look_up_all (map key_of chunks) c in
      let (c', e, sound', counts) = fill_lem chunks vectors c₁ p (rw same sound) in
      (
        c',
        ap (λ r. finish (map key_of chunks) vectors r c₁)
              (compute_lem delegate maps (missing chunks vectors))
            ∙ e
            ∙ ap (λ r. (r, c')) (sym (maps chunks)),
        sound',
        omega arith,
      )
