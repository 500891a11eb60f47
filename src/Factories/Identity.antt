-- ===== src/Factories/Identity.antt =====
-- factories.py: the identity of a source, under which its points and its state are kept.
use alvis.Base.{String, ◌<>◌, Option, none, some}
use alvis.Base.{◌==◌, string_eq, if◌then◌else◌}
use alvis.Base.Dict.{lookup}
use alvis.Value.{Value, null, str, truth}
use alvis.Config.{SourceConfig}

module _ (repr : Value → String) where
  -- `f"{config.get(key, default)}"`
  shown : String → Option Value → String
  unfolding str
  shown default none = default
  shown default (some v) = str repr v

  -- `f"{config.get(key) or later}"`
  shown_or : String → Option Value → String
  unfolding str truth
  shown_or later none = later
  shown_or later (some v) = if truth v then str repr v else later

  group_scope : Option Value → String
  unfolding str truth
  group_scope none = ""
  group_scope (some v) = if truth v then "group:" <> str repr v else ""

  confluence_identity : String → Option Value → Option Value → String
  unfolding shown str
  confluence_identity url none space = "confluence:" <> shown "" space <> "@" <> url
  confluence_identity url (some null) space = "confluence:" <> shown "" space <> "@" <> url
  confluence_identity url (some page) space = "confluence:page:" <> str repr page <> "@" <> url

  plugin_identity : SourceConfig → Option (SourceConfig → String) → String
  plugin_identity c none = c.type
  plugin_identity c (some f) = c.type <> ":" <> f c

  -- `source_identity`, for the identities that plugins register
  unfoldable pub source_identity : (String → Option (SourceConfig → String)) → SourceConfig → String
  unfolding shown shown_or group_scope confluence_identity plugin_identity lookup string_eq
  source_identity identities c =
      if c.type == "fs"
      then "fs:" <> shown "" (lookup "path" c.config)
      else if c.type == "confluence"
      then confluence_identity (shown "" (lookup "url" c.config)) (lookup "page_id" c.config)
          (lookup "space" c.config)
      else if c.type == "github"
      then "github:" <> shown "" (lookup "repo" c.config)
      else if c.type == "gitlab"
      then "gitlab:"
        <> shown_or (group_scope (lookup "group" c.config)) (lookup "project" c.config)
        <> "@"
        <> shown "https://gitlab.com" (lookup "url" c.config)
      else if c.type == "s3"
      then "s3:" <> shown "" (lookup "bucket" c.config) <> "@" <> shown "" (lookup "url" c.config)
      else if c.type == "notion"
      then "notion:" <> shown "" (lookup "api_token_env" c.config)
      else if c.type == "jira"
      then "jira:"
        <> shown_or (shown "" (lookup "jql" c.config)) (lookup "project" c.config)
        <> "@"
        <> shown "" (lookup "url" c.config)
      else if c.type == "sharepoint"
      then "sharepoint:" <> shown "" (lookup "site_url" c.config)
      else if c.type == "gdrive"
      then "gdrive:"
        <> shown_or (shown "" (lookup "service_account_key_env" c.config))
            (lookup "folder_id" c.config)
      else plugin_identity c (identities c.type)
