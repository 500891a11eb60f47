-- ===== src/Tests/DslRuns.antt =====
-- Configurations that the DSL writes, and what is built of them.
use alvis.Base.{true, ◌≡◌, refl, none, some, [], ◌∷◌, string_eq}
use alvis.Value.{flag, num, text, seq, texts}
use alvis.Errors.{ok}
use alvis.Config.{max_tokens, overlap, max_chars, overlap_chars}
use alvis.Factories.Identity.{source_identity}
use alvis.Tests.Fixtures.{repr}
use alvis.Dsl.Records.{Github, Chunking}
use alvis.Dsl.Sources.{github}
use alvis.Dsl.Receives.{Receives}

-- A call with two settings that are not the defaults, and an empty list.
abbrev docs : Github
docs = record {
  repo = "team/docs";
  branch = "main";
  path = some "guide";
  include_globs = some [];
  exclude_globs = none;
  api_token_env = none;
  access = record { retries = 5; retry_backoff = 1; verify = flag true };
  max_bytes = some 1000;
  max_concurrency = 8;
  acl = some ("staff" ∷ []);
}

docs_config :
    github docs
    ≡ ok (record {
      type = "github";
      config =
          ("repo", text "team/docs")
          ∷ ("path", text "guide")
          ∷ ("retries", num 5)
          ∷ ("max_bytes", num 1000)
          ∷ ("acl", seq (texts ("staff" ∷ [])))
          ∷ [];
    })
unfolding github string_eq
docs_config = refl

abbrev small_chunks : Chunking
small_chunks = record {
  strategy = "size";
  max_tokens = 500;
  overlap = 50;
  max_chars = 100;
  overlap_chars = 0;
}

-- Two sources of one repository, on different paths, have the same identity.
same_identity :
    source_identity repr
      (λ type. none)
      (record { type = "github"; config = ("repo", text "r") ∷ ("path", text "a") ∷ [] })
    ≡ source_identity repr
        (λ type. none)
        (record { type = "github"; config = ("repo", text "r") ∷ ("path", text "b") ∷ [] })
unfolding source_identity string_eq
same_identity = refl
