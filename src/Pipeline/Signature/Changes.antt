-- ===== src/Pipeline/Signature/Changes.antt =====
-- What a change of a configuration does to its signature.
use alvis.Base.{String, ℕ, ◌≡◌, refl, ap, sym, ◌∙◌, Option, none, some, string_eq, arith}
use alvis.Base.Dict.{lookup}
use alvis.Value.{Value, num, text, obj, Fields, end, field, get_field, or_null}
use alvis.Errors.{Result, ok, err}
use alvis.Config.{PipelineConfig, max_tokens, overlap, max_chars, overlap_chars}
use alvis.Pipeline.Signature.{chunk_block, payload_of, payload, digested, pipeline_signature}

abbrev pub dumped : {D : Type 0} → (Value → D) → Option Value → Option D
dumped dumps none = none
dumped dumps (some v) = some (dumps v)

-- JSON keeps texts and numbers apart, and of a dict the JSON of the value of each key.
pub record IsJson {D : Type 0} (dumps : Value → D) : Type 0 where
  pub same_text : (s t : String) → dumps (text s) ≡ dumps (text t) → s ≡ t
  pub same_number : (m n : ℕ) → dumps (num m) ≡ dumps (num n) → m ≡ n
  pub same_fields :
      (fs gs : Fields) (key : String)
      → dumps (obj fs) ≡ dumps (obj gs)
      → dumped dumps (get_field key fs) ≡ dumped dumps (get_field key gs)

-- Two configurations have the same transformations, as far as the signature goes.
abbrev pub Alike : {D : Type 0} → (Value → D) → PipelineConfig → PipelineConfig → Type 0
Alike dumps c d =
    (c.extract.strategy ≡ d.extract.strategy)
    × (c.chunk.strategy ≡ d.chunk.strategy)
    × (max_tokens c.chunk ≡ max_tokens d.chunk)
    × (overlap c.chunk ≡ overlap d.chunk)
    × (max_chars c.chunk ≡ max_chars d.chunk)
    × (overlap_chars c.chunk ≡ overlap_chars d.chunk)
    × (c.embed.type ≡ d.embed.type)
    × (dumps (or_null (lookup "model" c.embed.config))
        ≡ dumps (or_null (lookup "model" d.embed.config)))
    × (dumps (or_null (lookup "acl" c.source.config))
        ≡ dumps (or_null (lookup "acl" d.source.config)))

some_injective : {A : Type 0} (a b : A) → some a ≡ some b → a ≡ b
some_injective a b h = cc

ok_injective : {A : Type 0} (a b : A) → ok a ≡ ok b → a ≡ b
ok_injective a b h = cc

-- The numbers of a block that there is.
chunk_block_ok :
    (strategy : String) (a b c d : Option ℕ) (v : Value)
    → chunk_block strategy a b c d ≡ ok v
    → (k : ℕ) × (l : ℕ) × (m : ℕ) × (n : ℕ) × ((a ≡ some k)
        × (b ≡ some l)
        × (c ≡ some m)
        × (d ≡ some n))
      × (v
          ≡ obj (
              field "strategy" (text strategy) (
                field "max_tokens" (num k) (
                  field "overlap"
                    (num l)
                    (field "max_chars" (num m) (field "overlap_chars" (num n) end))))))
unfolding chunk_block
chunk_block_ok strategy (some a) (some b) (some c) (some d) v h =
    (a, b, c, d, (refl, refl, refl, refl), sym (ok_injective _ _ h))
chunk_block_ok strategy a b c d v h = absurd (ground arith)

digested_ok :
    {D S : Type 0} (dumps : Value → D) (sha256 : D → S) (r : Result Value) (s : S)
    → digested dumps sha256 r ≡ ok s
    → (v : Value) × (r ≡ ok v) × (sha256 (dumps v) ≡ s)
unfolding digested
digested_ok dumps sha256 (ok v) s h = (v, refl, ok_injective _ _ h)
digested_ok dumps sha256 (err e) s h = absurd (ground arith)

abbrev rest_of : PipelineConfig → Value → Fields
rest_of c block = field "extract" (text c.extract.strategy) (
    field "chunk" block (
      field "embed_type" (text c.embed.type) (
        field "embed_model" (or_null (lookup "model" c.embed.config))
          (field "source_acl" (or_null (lookup "acl" c.source.config)) end))))

payload_of_ok :
    (c : PipelineConfig) (r : Result Value) (v : Value)
    → payload_of c r ≡ ok v
    → (block : Value) × (r ≡ ok block) × (v ≡ obj (rest_of c block))
unfolding payload_of
payload_of_ok c (ok block) v h = (block, refl, sym (ok_injective _ _ h))
payload_of_ok c (err e) v h = absurd (ground arith)

module _ {D S : Type 0} (dumps : Value → D) (sha256 : D → S) (json : IsJson dumps)
    (apart : (x y : D) → sha256 x ≡ sha256 y → x ≡ y) where
  same_at :
      (fs gs : Fields) (key : String) (v w : Value)
      → dumps (obj fs) ≡ dumps (obj gs)
      → get_field key fs ≡ some v
      → get_field key gs ≡ some w
      → dumps v ≡ dumps w
  same_at fs gs key v w h p q =
      some_injective _ _
        (sym (ap (dumped dumps) p) ∙ json.same_fields fs gs key h ∙ ap (dumped dumps) q)

  abbrev chunk_fields : String → ℕ → ℕ → ℕ → ℕ → Fields
  chunk_fields strategy k l m n = field "strategy" (text strategy) (
      field "max_tokens" (num k)
        (field "overlap" (num l) (field "max_chars" (num m) (field "overlap_chars" (num n) end))))

  same_chunks :
      (s t : String) (k l m n k' l' m' n' : ℕ)
      → dumps (obj (chunk_fields s k l m n)) ≡ dumps (obj (chunk_fields t k' l' m' n'))
      → (s ≡ t) × (k ≡ k') × (l ≡ l') × (m ≡ m') × (n ≡ n')
  unfolding get_field string_eq
  same_chunks s t k l m n k' l' m' n' h =
      let at = same_at (chunk_fields s k l m n) (chunk_fields t k' l' m' n') in
      (
        json.same_text s t (at "strategy" _ _ h refl refl),
        json.same_number k k' (at "max_tokens" _ _ h refl refl),
        json.same_number l l' (at "overlap" _ _ h refl refl),
        json.same_number m m' (at "max_chars" _ _ h refl refl),
        json.same_number n n' (at "overlap_chars" _ _ h refl refl),
      )

  same_rest :
      (c d : PipelineConfig) (v w : Value)
      → dumps (obj (rest_of c v)) ≡ dumps (obj (rest_of d w))
      → (c.extract.strategy ≡ d.extract.strategy)
        × (dumps v ≡ dumps w)
        × (c.embed.type ≡ d.embed.type)
        × (dumps (or_null (lookup "model" c.embed.config))
            ≡ dumps (or_null (lookup "model" d.embed.config)))
        × (dumps (or_null (lookup "acl" c.source.config))
            ≡ dumps (or_null (lookup "acl" d.source.config)))
  unfolding get_field string_eq
  same_rest c d v w h =
      let at = same_at (rest_of c v) (rest_of d w) in
      (
        json.same_text _ _ (at "extract" _ _ h refl refl),
        at "chunk" _ _ h refl refl,
        json.same_text _ _ (at "embed_type" _ _ h refl refl),
        at "embed_model" _ _ h refl refl,
        at "source_acl" _ _ h refl refl,
      )

  -- If two configurations have the same signature, then they have the same strategies of extraction and
  -- of chunks, the same four numbers of the chunk settings, defaults included, the same embedder with
  -- the same model, and the same access list. Of other settings, such as the extraction's `max_bytes` or
  -- the embedder's `base_url`, it says nothing. SHA-256 is taken to be without collisions.
  pub pipeline_signature_lem :
      (c d : PipelineConfig) (s : S)
      → pipeline_signature dumps sha256 c ≡ ok s
      → pipeline_signature dumps sha256 d ≡ ok s
      → Alike dumps c d
  unfolding pipeline_signature payload
  pipeline_signature_lem c d s h k =
      let (v, p, x) = digested_ok dumps sha256 (payload c) s h in
      let (w, q, y) = digested_ok dumps sha256 (payload d) s k in
      let (a, p', e) = payload_of_ok c _ v p in
      let (b, q', f) = payload_of_ok d _ w q in
      let (k1, l1, m1, n1, (k2, l2, m2, n2), g) = chunk_block_ok _ _ _ _ _ a p' in
      let (k1', l1', m1', n1', (k2', l2', m2', n2'), g') = chunk_block_ok _ _ _ _ _ b q' in
      let whole = sym (ap dumps e) ∙ apart _ _ (x ∙ sym y) ∙ ap dumps f in
      let (extracts, blocks, types, models, acls) = same_rest c d a b whole in
      let (strategies, tokens, overlaps, chars, carried) =
        same_chunks _ _ k1 l1 m1 n1 k1' l1' m1' n1' (sym (ap dumps g) ∙ blocks ∙ ap dumps g') in
      (
        extracts,
        strategies,
        k2 ∙ ap some tokens ∙ sym k2',
        l2 ∙ ap some overlaps ∙ sym l2',
        m2 ∙ ap some chars ∙ sym m2',
        n2 ∙ ap some carried ∙ sym n2',
        types,
        models,
        acls,
      )
