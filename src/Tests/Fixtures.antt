-- ===== src/Tests/Fixtures.antt =====
-- The data that the tests share.
use alvis.Base.{String, ℕ, zero, suc, ◌+◌, ◌*◌, true, false, none, some, [], ◌∷◌, arith}
use alvis.Base.{ltb, eqb}
use alvis.Base.Sort.{IsStrictWeak}
use alvis.Value.{Value, text, seq, nil, cons}
use alvis.Models.{Chunk}
use alvis.Floats.{Floats}
use alvis.Index.Math.{RootsMultiply}
use alvis.DocStore.{DocStore, DocEntry, RunRecord, missing}

abbrev pub repr : Value → String
repr v = "?"

-- A digest without collisions.
abbrev pub plain : String → String
plain s = s

-- Whole numbers in place of floats: enough to order hits.
abbrev pub whole : Floats ℕ
whole = record {
  zero = 0;
  one = 1000;
  minus_one = 0;
  add = λ a b. a + b;
  mul = λ a b. a * b;
  div = λ a b. a;
  sqrt = λ a. a;
  of_nat = λ n. n;
  lt = ltb;
  eq = eqb;
}

pub whole_order : IsStrictWeak whole.lt
whole_order = record { asym = λ a b h. ground arith; through = λ a b c h k. ground arith }

pub whole_roots : RootsMultiply whole
whole_roots zero y h k = absurd cc
whole_roots (suc x) zero h k = absurd cc
whole_roots (suc x) (suc y) h k = ground arith

abbrev pub good_run : RunRecord
good_run = record {
  at = "2026-01-01T00:00:00+00:00";
  ok = true;
  error = "";
  duration = 5;
  documents = 2;
  chunks = 3;
  changed = 1;
  skipped = 1;
  deleted = 0;
  embed_cache_hits = 0;
  embed_cache_misses = 0;
}

abbrev pub bad_run : RunRecord
bad_run = record good_run { ok = false; error = "down" }

abbrev pub empty_store : DocStore
empty_store = record { file = missing; sources = []; ledger = [] }

abbrev pub entry_a : DocEntry
entry_a = record { content = "h1"; listing = some "f1" }

abbrev pub entry_b : DocEntry
entry_b = record { content = "h2"; listing = none }

abbrev pub chunk_a : Chunk
chunk_a = record { text = "alpha"; source_uri = "a.md"; metadata = ("title", text "A") ∷ [] }

abbrev pub chunk_b : Chunk
chunk_b = record {
  text = "beta";
  source_uri = "b.md";
  metadata = ("acl", seq (cons (text "eng") nil)) ∷ [];
}
