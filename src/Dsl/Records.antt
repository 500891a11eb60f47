-- ===== src/Dsl/Records.antt =====
-- dsl.py: the arguments of its functions. A `page_id` is the text that `str` makes of it, and a path
-- likewise.
use alvis.Base.{String, ℕ, Bool, Option, List}
use alvis.Value.{Value}
use alvis.Dsl.{Access}

pub record Fs : Type 0 where
  pub path : String
  pub pattern : Option String
  pub max_bytes : Option ℕ
  pub acl : Option (List String)

pub record Confluence : Type 0 where
  pub url : String
  pub space : Option String
  pub page_id : Option String
  pub username : Option String
  pub api_token_env : Option String
  pub access : Access
  pub max_concurrency : ℕ
  pub acl : Option (List String)

pub record Github : Type 0 where
  pub repo : String
  pub branch : String
  pub path : Option String
  pub include_globs : Option (List String)
  pub exclude_globs : Option (List String)
  pub api_token_env : Option String
  pub access : Access
  pub max_bytes : Option ℕ
  pub max_concurrency : ℕ
  pub acl : Option (List String)

pub record Gitlab : Type 0 where
  pub project : Option String
  pub group : Option String
  pub url : String
  pub branch : String
  pub path : Option String
  pub include_globs : Option (List String)
  pub exclude_globs : Option (List String)
  pub project_include_globs : Option (List String)
  pub project_exclude_globs : Option (List String)
  pub include_archived : Bool
  pub api_token_env : Option String
  pub per_page : ℕ
  pub access : Access
  pub max_bytes : Option ℕ
  pub max_concurrency : ℕ
  pub acl : Option (List String)

pub record S3 : Type 0 where
  pub url : String
  pub bucket : String
  pub access_key_env : String
  pub secret_key_env : String
  pub region : String
  pub prefix : Option String
  pub include_globs : Option (List String)
  pub exclude_globs : Option (List String)
  pub access : Access
  pub max_bytes : Option ℕ
  pub max_concurrency : ℕ
  pub acl : Option (List String)

pub record StaticUrl : Type 0 where
  pub urls : List String
  pub api_token_env : Option String
  pub timeout : ℕ
  pub max_bytes : Option ℕ
  pub access : Access
  pub max_concurrency : ℕ
  pub acl : Option (List String)

pub record Notion : Type 0 where
  pub api_token_env : String
  pub access : Access
  pub max_concurrency : ℕ
  pub acl : Option (List String)

pub record Jira : Type 0 where
  pub url : String
  pub project : Option String
  pub jql : Option String
  pub api_token_env : Option String
  pub username : Option String
  pub access : Access
  pub max_concurrency : ℕ
  pub acl : Option (List String)

pub record SharePoint : Type 0 where
  pub tenant_id : String
  pub client_id : String
  pub site_url : String
  pub client_secret_env : String
  pub include_globs : Option (List String)
  pub exclude_globs : Option (List String)
  pub access : Access
  pub max_bytes : Option ℕ
  pub max_concurrency : ℕ
  pub acl : Option (List String)

pub record Gdrive : Type 0 where
  pub service_account_key_env : String
  pub folder_id : Option String
  pub include_globs : Option (List String)
  pub exclude_globs : Option (List String)
  pub access : Access
  pub max_bytes : Option ℕ
  pub max_concurrency : ℕ
  pub acl : Option (List String)

pub record Chunking : Type 0 where
  pub strategy : String
  pub max_tokens : ℕ
  pub overlap : ℕ
  pub max_chars : ℕ
  pub overlap_chars : ℕ

pub record Openai : Type 0 where
  pub base_url : String
  pub model : String
  pub api_token_env : Option String
  pub batch_size : ℕ
  pub max_concurrency : ℕ
  pub access : Access
  pub cache : Option Value

pub record Qdrant : Type 0 where
  pub url : String
  pub collection : String
  pub api_token_env : Option String
  pub access : Access

pub record Elasticsearch : Type 0 where
  pub url : String
  pub index : String
  pub api_token_env : Option String
  pub username : Option String
  pub access : Access

pub record Pgvector : Type 0 where
  pub dsn : Option String
  pub dsn_env : Option String
  pub table : String
