-- ===== src/Factories/Defaults.antt =====
-- sources/*.py, embed/openai.py and index/*.py: the defaults of the keyword arguments with which the
-- built-in classes are made.
use alvis.Base.{String, true, false, [], ◌∷◌}
use alvis.Base.Dict.{Dict}
use alvis.Value.{null, flag, num, text}
use alvis.Config.{Settings}

abbrev pub fs_defaults : Settings
fs_defaults = ("pattern", null) ∷ ("max_bytes", null) ∷ []

abbrev pub confluence_defaults : Settings
confluence_defaults =
    ("space", null)
    ∷ ("page_id", null)
    ∷ ("api_token_env", null)
    ∷ ("username", null)
    ∷ ("retries", num 3)
    ∷ ("retry_backoff", num 1)
    ∷ ("verify", flag true)
    ∷ ("max_concurrency", num 8)
    ∷ []

abbrev pub github_defaults : Settings
github_defaults =
    ("branch", text "main")
    ∷ ("path", null)
    ∷ ("include_globs", null)
    ∷ ("exclude_globs", null)
    ∷ ("api_token_env", null)
    ∷ ("retries", num 3)
    ∷ ("retry_backoff", num 1)
    ∷ ("verify", flag true)
    ∷ ("max_bytes", null)
    ∷ ("max_concurrency", num 8)
    ∷ []

abbrev pub gitlab_defaults : Settings
gitlab_defaults =
    ("project", null)
    ∷ ("group", null)
    ∷ ("branch", text "main")
    ∷ ("path", null)
    ∷ ("include_globs", null)
    ∷ ("exclude_globs", null)
    ∷ ("project_include_globs", null)
    ∷ ("project_exclude_globs", null)
    ∷ ("include_archived", flag false)
    ∷ ("api_token_env", null)
    ∷ ("retries", num 3)
    ∷ ("retry_backoff", num 1)
    ∷ ("verify", flag true)
    ∷ ("per_page", num 100)
    ∷ ("url", text "https://gitlab.com")
    ∷ ("max_bytes", null)
    ∷ ("max_concurrency", num 8)
    ∷ []

abbrev pub s3_defaults : Settings
s3_defaults =
    ("region", text "us-east-1")
    ∷ ("prefix", null)
    ∷ ("include_globs", null)
    ∷ ("exclude_globs", null)
    ∷ ("retries", num 3)
    ∷ ("retry_backoff", num 1)
    ∷ ("verify", flag true)
    ∷ ("max_bytes", null)
    ∷ ("max_concurrency", num 8)
    ∷ []

abbrev pub static_url_defaults : Settings
static_url_defaults =
    ("api_token_env", null)
    ∷ ("timeout", num 20)
    ∷ ("retries", num 3)
    ∷ ("retry_backoff", num 1)
    ∷ ("verify", flag true)
    ∷ ("max_bytes", null)
    ∷ ("max_concurrency", num 8)
    ∷ []

abbrev pub notion_defaults : Settings
notion_defaults =
    ("retries", num 3)
    ∷ ("retry_backoff", num 1)
    ∷ ("verify", flag true)
    ∷ ("max_concurrency", num 8)
    ∷ []

abbrev pub jira_defaults : Settings
jira_defaults =
    ("project", null)
    ∷ ("jql", null)
    ∷ ("api_token_env", null)
    ∷ ("username", null)
    ∷ ("retries", num 3)
    ∷ ("retry_backoff", num 1)
    ∷ ("verify", flag true)
    ∷ ("max_concurrency", num 8)
    ∷ []

abbrev pub sharepoint_defaults : Settings
sharepoint_defaults =
    ("include_globs", null)
    ∷ ("exclude_globs", null)
    ∷ ("retries", num 3)
    ∷ ("retry_backoff", num 1)
    ∷ ("verify", flag true)
    ∷ ("max_bytes", null)
    ∷ ("max_concurrency", num 8)
    ∷ []

abbrev pub gdrive_defaults : Settings
gdrive_defaults =
    ("folder_id", null)
    ∷ ("include_globs", null)
    ∷ ("exclude_globs", null)
    ∷ ("retries", num 3)
    ∷ ("retry_backoff", num 1)
    ∷ ("verify", flag true)
    ∷ ("max_bytes", null)
    ∷ ("max_concurrency", num 8)
    ∷ []

abbrev pub openai_defaults : Settings
openai_defaults =
    ("api_token_env", null)
    ∷ ("batch_size", num 32)
    ∷ ("max_concurrency", num 4)
    ∷ ("timeout", num 60)
    ∷ ("retries", num 3)
    ∷ ("retry_backoff", num 1)
    ∷ ("verify", flag true)
    ∷ []

abbrev pub qdrant_defaults : Settings
qdrant_defaults =
    ("api_token_env", null)
    ∷ ("retries", num 3)
    ∷ ("retry_backoff", num 1)
    ∷ ("verify", flag true)
    ∷ []

abbrev pub elasticsearch_defaults : Settings
elasticsearch_defaults =
    ("api_token_env", null)
    ∷ ("username", null)
    ∷ ("retries", num 3)
    ∷ ("retry_backoff", num 1)
    ∷ ("verify", flag true)
    ∷ []

abbrev pub pgvector_defaults : Settings
pgvector_defaults = ("dsn", null) ∷ ("dsn_env", null) ∷ ("table", text "alvis_chunks") ∷ []

-- The defaults of the class of a source type.
abbrev pub source_defaults : Dict String Settings
source_defaults =
    ("FilesystemSource", fs_defaults)
    ∷ ("ConfluenceSource", confluence_defaults)
    ∷ ("GitHubSource", github_defaults)
    ∷ ("GitLabSource", gitlab_defaults)
    ∷ ("S3Source", s3_defaults)
    ∷ ("StaticUrlSource", static_url_defaults)
    ∷ ("NotionSource", notion_defaults)
    ∷ ("JiraSource", jira_defaults)
    ∷ ("SharePointSource", sharepoint_defaults)
    ∷ ("GoogleDriveSource", gdrive_defaults)
    ∷ []
