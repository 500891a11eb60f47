-- ===== src/Dsl/Expects.antt =====
-- sources/*.py: what the keyword arguments of a class should be, for a call of the function of dsl.py
-- that configures it.
use alvis.Base.{String, ℕ, not, Option, [], ◌∷◌}
use alvis.Base.{if◌then◌else◌}
use alvis.Base.Dict.{Dict}
use alvis.Value.{Value, flag, num, text, seq, or_null, map_value, texts}
use alvis.Factories.{is_present}
use alvis.Dsl.{true_text, true_items}
use alvis.Dsl.Calls.{
  Call, fs_call, confluence_call, github_call, gitlab_call, s3_call, static_url_call, notion_call,
  jira_call, sharepoint_call, gdrive_call, none_call,
}

-- The engine's cap where no number is given.
abbrev number_or_cap : Option Value → Option ℕ → Value
number_or_cap max_bytes o =
    if not (is_present (map_value num o)) then or_null max_bytes else or_null (map_value num o)

-- The keywords of the class of the source, each with the argument of the call that it is for. A text or
-- a list that is empty is none.
abbrev pub expects : Option Value → Call → Dict String Value
expects max_bytes (fs_call a) =
    ("path", text a.path)
    ∷ ("pattern", true_text a.pattern)
    ∷ ("max_bytes", number_or_cap max_bytes a.max_bytes)
    ∷ []
expects max_bytes (confluence_call a) =
    ("url", text a.url)
    ∷ ("space", true_text a.space)
    ∷ ("page_id", or_null (map_value text a.page_id))
    ∷ ("username", true_text a.username)
    ∷ ("api_token_env", true_text a.api_token_env)
    ∷ ("retries", num a.access.retries)
    ∷ ("retry_backoff", num a.access.retry_backoff)
    ∷ ("verify", a.access.verify)
    ∷ ("max_concurrency", num a.max_concurrency)
    ∷ []
expects max_bytes (github_call a) =
    ("repo", text a.repo)
    ∷ ("branch", text a.branch)
    ∷ ("path", true_text a.path)
    ∷ ("include_globs", true_items a.include_globs)
    ∷ ("exclude_globs", true_items a.exclude_globs)
    ∷ ("api_token_env", true_text a.api_token_env)
    ∷ ("retries", num a.access.retries)
    ∷ ("retry_backoff", num a.access.retry_backoff)
    ∷ ("verify", a.access.verify)
    ∷ ("max_bytes", number_or_cap max_bytes a.max_bytes)
    ∷ ("max_concurrency", num a.max_concurrency)
    ∷ []
expects max_bytes (gitlab_call a) =
    ("project", true_text a.project)
    ∷ ("group", true_text a.group)
    ∷ ("url", text a.url)
    ∷ ("branch", text a.branch)
    ∷ ("path", true_text a.path)
    ∷ ("include_globs", true_items a.include_globs)
    ∷ ("exclude_globs", true_items a.exclude_globs)
    ∷ ("project_include_globs", true_items a.project_include_globs)
    ∷ ("project_exclude_globs", true_items a.project_exclude_globs)
    ∷ ("include_archived", flag a.include_archived)
    ∷ ("api_token_env", true_text a.api_token_env)
    ∷ ("per_page", num a.per_page)
    ∷ ("retries", num a.access.retries)
    ∷ ("retry_backoff", num a.access.retry_backoff)
    ∷ ("verify", a.access.verify)
    ∷ ("max_bytes", number_or_cap max_bytes a.max_bytes)
    ∷ ("max_concurrency", num a.max_concurrency)
    ∷ []
expects max_bytes (s3_call a) =
    ("url", text a.url)
    ∷ ("bucket", text a.bucket)
    ∷ ("access_key_env", text a.access_key_env)
    ∷ ("secret_key_env", text a.secret_key_env)
    ∷ ("region", text a.region)
    ∷ ("prefix", true_text a.prefix)
    ∷ ("include_globs", true_items a.include_globs)
    ∷ ("exclude_globs", true_items a.exclude_globs)
    ∷ ("retries", num a.access.retries)
    ∷ ("retry_backoff", num a.access.retry_backoff)
    ∷ ("verify", a.access.verify)
    ∷ ("max_bytes", number_or_cap max_bytes a.max_bytes)
    ∷ ("max_concurrency", num a.max_concurrency)
    ∷ []
expects max_bytes (static_url_call a) =
    ("urls", seq (texts a.urls))
    ∷ ("api_token_env", true_text a.api_token_env)
    ∷ ("timeout", num a.timeout)
    ∷ ("max_bytes", number_or_cap max_bytes a.max_bytes)
    ∷ ("retries", num a.access.retries)
    ∷ ("retry_backoff", num a.access.retry_backoff)
    ∷ ("verify", a.access.verify)
    ∷ ("max_concurrency", num a.max_concurrency)
    ∷ []
expects max_bytes (notion_call a) =
    ("api_token_env", text a.api_token_env)
    ∷ ("retries", num a.access.retries)
    ∷ ("retry_backoff", num a.access.retry_backoff)
    ∷ ("verify", a.access.verify)
    ∷ ("max_concurrency", num a.max_concurrency)
    ∷ []
expects max_bytes (jira_call a) =
    ("url", text a.url)
    ∷ ("project", true_text a.project)
    ∷ ("jql", true_text a.jql)
    ∷ ("api_token_env", true_text a.api_token_env)
    ∷ ("username", true_text a.username)
    ∷ ("retries", num a.access.retries)
    ∷ ("retry_backoff", num a.access.retry_backoff)
    ∷ ("verify", a.access.verify)
    ∷ ("max_concurrency", num a.max_concurrency)
    ∷ []
expects max_bytes (sharepoint_call a) =
    ("tenant_id", text a.tenant_id)
    ∷ ("client_id", text a.client_id)
    ∷ ("site_url", text a.site_url)
    ∷ ("client_secret_env", text a.client_secret_env)
    ∷ ("include_globs", true_items a.include_globs)
    ∷ ("exclude_globs", true_items a.exclude_globs)
    ∷ ("retries", num a.access.retries)
    ∷ ("retry_backoff", num a.access.retry_backoff)
    ∷ ("verify", a.access.verify)
    ∷ ("max_bytes", number_or_cap max_bytes a.max_bytes)
    ∷ ("max_concurrency", num a.max_concurrency)
    ∷ []
expects max_bytes (gdrive_call a) =
    ("service_account_key_env", text a.service_account_key_env)
    ∷ ("folder_id", true_text a.folder_id)
    ∷ ("include_globs", true_items a.include_globs)
    ∷ ("exclude_globs", true_items a.exclude_globs)
    ∷ ("retries", num a.access.retries)
    ∷ ("retry_backoff", num a.access.retry_backoff)
    ∷ ("verify", a.access.verify)
    ∷ ("max_bytes", number_or_cap max_bytes a.max_bytes)
    ∷ ("max_concurrency", num a.max_concurrency)
    ∷ []
expects max_bytes none_call = []
