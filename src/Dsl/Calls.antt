-- ===== src/Dsl/Calls.antt =====
-- dsl.py: the calls of its functions for sources.
use alvis.Base.{String, Bool, false, not, ◌&&◌, Option, none, List, []}
use alvis.Base.{string_eq, is_some}
use alvis.Errors.{Result}
use alvis.Config.{Settings, SourceConfig}
use alvis.Factories.Defaults.{
  fs_defaults, confluence_defaults, github_defaults, gitlab_defaults, s3_defaults,
  static_url_defaults, notion_defaults, jira_defaults, sharepoint_defaults, gdrive_defaults,
}
use alvis.Dsl.Records.{
  Fs, Confluence, Github, Gitlab, S3, StaticUrl, Notion, Jira, SharePoint, Gdrive,
}
use alvis.Dsl.Sources.{
  is_true_text, none_source, fs, confluence, github, gitlab, s3, static_url, notion, jira,
  sharepoint, gdrive,
}

-- A call of a function of the DSL for a source.
pub data Call : Type 0 where
  fs_call : Fs → Call
  confluence_call : Confluence → Call
  github_call : Github → Call
  gitlab_call : Gitlab → Call
  s3_call : S3 → Call
  static_url_call : StaticUrl → Call
  notion_call : Notion → Call
  jira_call : Jira → Call
  sharepoint_call : SharePoint → Call
  gdrive_call : Gdrive → Call
  none_call : Call

-- What the call returns.
abbrev pub config_of : Call → Result SourceConfig
config_of (fs_call a) = fs a
config_of (confluence_call a) = confluence a
config_of (github_call a) = github a
config_of (gitlab_call a) = gitlab a
config_of (s3_call a) = s3 a
config_of (static_url_call a) = static_url a
config_of (notion_call a) = notion a
config_of (jira_call a) = jira a
config_of (sharepoint_call a) = sharepoint a
config_of (gdrive_call a) = gdrive a
config_of none_call = none_source

abbrev pub acl_of : Call → Option (List String)
acl_of (fs_call a) = a.acl
acl_of (confluence_call a) = a.acl
acl_of (github_call a) = a.acl
acl_of (gitlab_call a) = a.acl
acl_of (s3_call a) = a.acl
acl_of (static_url_call a) = a.acl
acl_of (notion_call a) = a.acl
acl_of (jira_call a) = a.acl
acl_of (sharepoint_call a) = a.acl
acl_of (gdrive_call a) = a.acl
acl_of none_call = none

abbrev pub class_of : Call → String
class_of (fs_call a) = "FilesystemSource"
class_of (confluence_call a) = "ConfluenceSource"
class_of (github_call a) = "GitHubSource"
class_of (gitlab_call a) = "GitLabSource"
class_of (s3_call a) = "S3Source"
class_of (static_url_call a) = "StaticUrlSource"
class_of (notion_call a) = "NotionSource"
class_of (jira_call a) = "JiraSource"
class_of (sharepoint_call a) = "SharePointSource"
class_of (gdrive_call a) = "GoogleDriveSource"
class_of none_call = "NoneSource"

-- The defaults of the class.
abbrev pub defaults_of : Call → Settings
defaults_of (fs_call a) = fs_defaults
defaults_of (confluence_call a) = confluence_defaults
defaults_of (github_call a) = github_defaults
defaults_of (gitlab_call a) = gitlab_defaults
defaults_of (s3_call a) = s3_defaults
defaults_of (static_url_call a) = static_url_defaults
defaults_of (notion_call a) = notion_defaults
defaults_of (jira_call a) = jira_defaults
defaults_of (sharepoint_call a) = sharepoint_defaults
defaults_of (gdrive_call a) = gdrive_defaults
defaults_of none_call = []

-- The calls that raise: without a space and a page, a project and a group, a project and a query.
abbrev pub is_refused : Call → Bool
is_refused (confluence_call a) = not (is_true_text a.space) && not (is_some a.page_id)
is_refused (gitlab_call a) = not (is_some a.project) && not (is_some a.group)
is_refused (jira_call a) = not (is_true_text a.project) && not (is_true_text a.jql)
is_refused _ = false
