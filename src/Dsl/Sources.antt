-- ===== src/Dsl/Sources.antt =====
-- dsl.py: the sources.
use alvis.Base.{
  String, Bool, false, not, ◌&&◌, Option, none, some, List, [], ◌∷◌, ◌++◌, is_some, string_eq, ◌==◌,
}
use alvis.Base.{if◌then◌else◌}
use alvis.Value.{num, text, seq, map_value, texts}
use alvis.Errors.{value_error, Result, err}
use alvis.Config.{SourceConfig}
use alvis.Dsl.Records.{
  Fs, Confluence, Github, Gitlab, S3, StaticUrl, Notion, Jira, SharePoint, Gdrive,
}
use alvis.Dsl.{
  Setting, always, unless_text, unless_num, if_flag, if_text, if_items, if_given, access, settings,
  source_config,
}

-- A text that is not empty.
unfoldable pub is_true_text : Option String → Bool
unfolding string_eq
is_true_text none = false
is_true_text (some s) = not (s == "")

abbrev pub acl : Option (List String) → List Setting
acl o = if_items "acl" o ∷ []

abbrev pub fs_arguments : Fs → List Setting
fs_arguments a =
    always "path" (text a.path)
    ∷ if_text "pattern" a.pattern
    ∷ if_given "max_bytes" (map_value num a.max_bytes)
    ∷ []

unfoldable pub fs : Fs → Result SourceConfig
unfolding source_config settings
fs a = source_config "fs" (settings (fs_arguments a ++ acl a.acl))

abbrev pub confluence_arguments : Confluence → List Setting
confluence_arguments a =
    always "url" (text a.url)
      ∷ if_text "space" a.space
      ∷ if_given "page_id" (map_value text a.page_id)
      ∷ if_text "username" a.username
      ∷ if_text "api_token_env" a.api_token_env
      ∷ access a.access
    ++ unless_num "max_concurrency" 8 a.max_concurrency ∷ []

unfoldable pub confluence : Confluence → Result SourceConfig
unfolding source_config settings is_true_text
confluence a =
    if not (is_true_text a.space) && not (is_some a.page_id)
    then err (value_error "confluence requires 'space' or 'page_id'")
    else source_config "confluence" (settings (confluence_arguments a ++ acl a.acl))

abbrev pub github_arguments : Github → List Setting
github_arguments a =
    always "repo" (text a.repo)
      ∷ unless_text "branch" "main" a.branch
      ∷ if_text "path" a.path
      ∷ if_items "include_globs" a.include_globs
      ∷ if_items "exclude_globs" a.exclude_globs
      ∷ if_text "api_token_env" a.api_token_env
      ∷ access a.access
    ++ if_given "max_bytes" (map_value num a.max_bytes)
      ∷ unless_num "max_concurrency" 8 a.max_concurrency
      ∷ []

unfoldable pub github : Github → Result SourceConfig
unfolding source_config settings
github a = source_config "github" (settings (github_arguments a ++ acl a.acl))

abbrev pub gitlab_arguments : Gitlab → List Setting
gitlab_arguments a =
    if_text "project" a.project
      ∷ if_text "group" a.group
      ∷ unless_text "url" "https://gitlab.com" a.url
      ∷ unless_text "branch" "main" a.branch
      ∷ if_text "path" a.path
      ∷ if_items "include_globs" a.include_globs
      ∷ if_items "exclude_globs" a.exclude_globs
      ∷ if_items "project_include_globs" a.project_include_globs
      ∷ if_items "project_exclude_globs" a.project_exclude_globs
      ∷ if_flag "include_archived" a.include_archived
      ∷ if_text "api_token_env" a.api_token_env
      ∷ unless_num "per_page" 100 a.per_page
      ∷ access a.access
    ++ if_given "max_bytes" (map_value num a.max_bytes)
      ∷ unless_num "max_concurrency" 8 a.max_concurrency
      ∷ []

unfoldable pub gitlab : Gitlab → Result SourceConfig
unfolding source_config settings
gitlab a =
    if not (is_some a.project) && not (is_some a.group)
    then err (value_error "gitlab() requires 'project' or 'group'")
    else source_config "gitlab" (settings (gitlab_arguments a ++ acl a.acl))

abbrev pub s3_arguments : S3 → List Setting
s3_arguments a =
    always "url" (text a.url)
      ∷ always "bucket" (text a.bucket)
      ∷ always "access_key_env" (text a.access_key_env)
      ∷ always "secret_key_env" (text a.secret_key_env)
      ∷ unless_text "region" "us-east-1" a.region
      ∷ if_text "prefix" a.prefix
      ∷ if_items "include_globs" a.include_globs
      ∷ if_items "exclude_globs" a.exclude_globs
      ∷ access a.access
    ++ if_given "max_bytes" (map_value num a.max_bytes)
      ∷ unless_num "max_concurrency" 8 a.max_concurrency
      ∷ []

unfoldable pub s3 : S3 → Result SourceConfig
unfolding source_config settings
s3 a = source_config "s3" (settings (s3_arguments a ++ acl a.acl))

abbrev pub static_url_arguments : StaticUrl → List Setting
static_url_arguments a =
    always "urls" (seq (texts a.urls))
      ∷ if_text "api_token_env" a.api_token_env
      ∷ unless_num "timeout" 20 a.timeout
      ∷ if_given "max_bytes" (map_value num a.max_bytes)
      ∷ access a.access
    ++ unless_num "max_concurrency" 8 a.max_concurrency ∷ []

unfoldable pub static_url : StaticUrl → Result SourceConfig
unfolding source_config settings
static_url a = source_config "static_url" (settings (static_url_arguments a ++ acl a.acl))

abbrev pub notion_arguments : Notion → List Setting
notion_arguments a =
    always "api_token_env" (text a.api_token_env) ∷ access a.access
    ++ unless_num "max_concurrency" 8 a.max_concurrency ∷ []

unfoldable pub notion : Notion → Result SourceConfig
unfolding source_config settings
notion a = source_config "notion" (settings (notion_arguments a ++ acl a.acl))

abbrev pub jira_arguments : Jira → List Setting
jira_arguments a =
    always "url" (text a.url)
      ∷ if_text "project" a.project
      ∷ if_text "jql" a.jql
      ∷ if_text "api_token_env" a.api_token_env
      ∷ if_text "username" a.username
      ∷ access a.access
    ++ unless_num "max_concurrency" 8 a.max_concurrency ∷ []

unfoldable pub jira : Jira → Result SourceConfig
unfolding source_config settings is_true_text
jira a =
    if not (is_true_text a.project) && not (is_true_text a.jql)
    then err (value_error "jira() requires 'project' or 'jql'")
    else source_config "jira" (settings (jira_arguments a ++ acl a.acl))

abbrev pub sharepoint_arguments : SharePoint → List Setting
sharepoint_arguments a =
    always "tenant_id" (text a.tenant_id)
      ∷ always "client_id" (text a.client_id)
      ∷ always "site_url" (text a.site_url)
      ∷ always "client_secret_env" (text a.client_secret_env)
      ∷ if_items "include_globs" a.include_globs
      ∷ if_items "exclude_globs" a.exclude_globs
      ∷ access a.access
    ++ if_given "max_bytes" (map_value num a.max_bytes)
      ∷ unless_num "max_concurrency" 8 a.max_concurrency
      ∷ []

unfoldable pub sharepoint : SharePoint → Result SourceConfig
unfolding source_config settings
sharepoint a = source_config "sharepoint" (settings (sharepoint_arguments a ++ acl a.acl))

abbrev pub gdrive_arguments : Gdrive → List Setting
gdrive_arguments a =
    always "service_account_key_env" (text a.service_account_key_env)
      ∷ if_text "folder_id" a.folder_id
      ∷ if_items "include_globs" a.include_globs
      ∷ if_items "exclude_globs" a.exclude_globs
      ∷ access a.access
    ++ if_given "max_bytes" (map_value num a.max_bytes)
      ∷ unless_num "max_concurrency" 8 a.max_concurrency
      ∷ []

unfoldable pub gdrive : Gdrive → Result SourceConfig
unfolding source_config settings
gdrive a = source_config "gdrive" (settings (gdrive_arguments a ++ acl a.acl))

-- `none()`
unfoldable pub none_source : Result SourceConfig
unfolding source_config settings
none_source = source_config "none" (settings [])
