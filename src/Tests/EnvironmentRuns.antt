-- ===== src/Tests/EnvironmentRuns.antt =====
-- A `.env` file that is loaded, and the secrets of a configuration that are missing.
use alvis.Base.{
  String, ◌≡◌, refl, ◌↔◌, true, none, some, [], ◌∷◌, if◌then◌else◌, contains, is_some, string_eq,
}
use alvis.Base.Dict.{Dict, lookup}
use alvis.Value.{text}
use alvis.Config.{PipelineConfig}
use alvis.Text.{Text, to_list, is_space}
use alvis.Environment.{load_dotenv, missing_env, is_unset, model_dump}
use alvis.Environment.Loading.{entries, or_else, load_dotenv_lem}
use alvis.Environment.References.{Mentions, missing_env_iff}

abbrev file : Text
file = to_list "# keys\n\nHOME=/tmp\nTOKEN = \"a b\"\r\nTOKEN=c"

abbrev environ : Dict String String
environ = ("HOME", "/root") ∷ []

-- The variable that is set wins, and the first entry of the other.
file_loaded :
    load_dotenv (some file) environ
    ≡ (("TOKEN", "a b") ∷ [], ("HOME", "/root") ∷ ("TOKEN", "a b") ∷ [])
unfolding load_dotenv string_eq is_space
file_loaded = refl

load_dotenv_lem_example :
    let (loaded, environ') = load_dotenv (some file) environ in
    (lookup "TOKEN" environ'
      ≡ or_else (lookup "TOKEN" environ) (lookup "TOKEN" (entries (some file))))
    × (lookup "TOKEN" loaded
        ≡ (if is_some (lookup "TOKEN" environ) then none else lookup "TOKEN" (entries (some file))))
    × (load_dotenv (some file) environ' ≡ ([], environ'))
load_dotenv_lem_example = load_dotenv_lem (some file) environ "TOKEN"

abbrev secretive : PipelineConfig
secretive = record {
  schema_version = 1;
  source = record { type = "notion"; config = ("api_token_env", text "TOKEN") ∷ [] };
  extract = record { strategy = "auto"; config = [] };
  chunk = record { strategy = "auto"; config = [] };
  embed = record { type = "default"; config = [] };
  index =
      some
        (record { type = "pgvector"; config = ("dsn_env", text "DSN") ∷ ("table", text "t") ∷ [] });
}

both_missing : missing_env environ secretive ≡ "DSN" ∷ "TOKEN" ∷ []
unfolding missing_env string_eq
both_missing = refl

missing_env_iff_example :
    (contains "DSN" (missing_env environ secretive) ≡ true)
    ↔ (Mentions "DSN" (model_dump secretive) × (is_unset (lookup "DSN" environ) ≡ true))
missing_env_iff_example = missing_env_iff environ secretive "DSN"
