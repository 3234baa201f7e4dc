-- ===== src/Oauth/Clients.antt =====
-- internal/oauth/server.go: the OAuth clients of the providers, and the credentials that they are for.
use scia.Base.{String, ◌==◌, Option, none, some, if◌then◌else◌}
use scia.Auth.Monad.{Op, return}
use scia.Config.Env.{header_value_from_env}
use scia.Config.Ids.{is_set}
use scia.Config.Lookup.{
  credential_by_id, param, google_oauth_config_for_credential, notion_oauth_config_for_credential,
  todoist_oauth_config_for_credential, slack_oauth_config_for_credential,
  github_oauth_config_for_credential,
}
use scia.Config.Types.{
  Config, CredentialConfig, GoogleOauthConfig, NotionOauthConfig, TodoistOauthConfig,
  SlackOauthConfig, GitHubOauthConfig,
}
use scia.Oauth.Types.{Outside}
use scia.Secrets.Ref.{resolve_ref}

-- The credential, if it is of the provider's type.
abbrev of_type : String → Option CredentialConfig → Option CredentialConfig
of_type type none = none
of_type type (some cred) = if cred.type == type then some cred else none

-- googleCredential and its siblings
unfoldable pub google_credential : Config → String → Option CredentialConfig
unfolding credential_by_id
google_credential cfg id = of_type "google-oauth-refresh-token" (credential_by_id cfg id)

unfoldable pub notion_credential : Config → String → Option CredentialConfig
unfolding credential_by_id
notion_credential cfg id = of_type "notion-oauth-refresh-token" (credential_by_id cfg id)

unfoldable pub todoist_credential : Config → String → Option CredentialConfig
unfolding credential_by_id
todoist_credential cfg id = of_type "todoist-oauth-refresh-token" (credential_by_id cfg id)

unfoldable pub slack_credential : Config → String → Option CredentialConfig
unfolding credential_by_id
slack_credential cfg id = of_type "slack-user-oauth-token" (credential_by_id cfg id)

unfoldable pub github_credential : Config → String → Option CredentialConfig
unfolding credential_by_id
github_credential cfg id = of_type "github-oauth-token" (credential_by_id cfg id)

-- googleScope and its siblings: the parameter of the credential, or the provider's value.
abbrev param_or : String → CredentialConfig → String → String
param_or key cred other = if is_set (param key cred.params) then param key cred.params else other

abbrev google_scope_of : Option GoogleOauthConfig → String
google_scope_of none = ""
google_scope_of (some c) = c.scope

unfoldable pub google_scope : Config → CredentialConfig → String
unfolding google_oauth_config_for_credential
google_scope cfg cred =
    param_or "scope" cred (google_scope_of (google_oauth_config_for_credential cfg cred.id))

abbrev todoist_scope_of : Option TodoistOauthConfig → String
todoist_scope_of none = ""
todoist_scope_of (some c) = c.scope

unfoldable pub todoist_scope : Config → CredentialConfig → String
unfolding todoist_oauth_config_for_credential
todoist_scope cfg cred =
    param_or "scope" cred (todoist_scope_of (todoist_oauth_config_for_credential cfg cred.id))

abbrev slack_scope_of : Option SlackOauthConfig → String
slack_scope_of none = ""
slack_scope_of (some c) = c.scope

unfoldable pub slack_scope : Config → CredentialConfig → String
unfolding slack_oauth_config_for_credential
slack_scope cfg cred =
    param_or "scope" cred (slack_scope_of (slack_oauth_config_for_credential cfg cred.id))

abbrev github_scope_of : Option GitHubOauthConfig → String
github_scope_of none = ""
github_scope_of (some c) = c.scope

unfoldable pub github_scope : Config → CredentialConfig → String
unfolding github_oauth_config_for_credential
github_scope cfg cred =
    param_or "scope" cred (github_scope_of (github_oauth_config_for_credential cfg cred.id))

-- todoistRedirectURLForCredential and its siblings
abbrev todoist_redirect_url_of : Option TodoistOauthConfig → String
todoist_redirect_url_of none = ""
todoist_redirect_url_of (some c) = c.redirect_url

unfoldable pub todoist_redirect_url_for_credential : Config → CredentialConfig → String
unfolding todoist_oauth_config_for_credential
todoist_redirect_url_for_credential cfg cred =
    param_or "redirect_uri" cred
      (todoist_redirect_url_of (todoist_oauth_config_for_credential cfg cred.id))

abbrev slack_redirect_url_of : Option SlackOauthConfig → String
slack_redirect_url_of none = ""
slack_redirect_url_of (some c) = c.redirect_url

unfoldable pub slack_redirect_url_for_credential : Config → CredentialConfig → String
unfolding slack_oauth_config_for_credential
slack_redirect_url_for_credential cfg cred =
    param_or "redirect_uri" cred
      (slack_redirect_url_of (slack_oauth_config_for_credential cfg cred.id))

abbrev github_redirect_url_of : Option GitHubOauthConfig → String
github_redirect_url_of none = ""
github_redirect_url_of (some c) = c.redirect_url

unfoldable pub github_redirect_url_for_credential : Config → CredentialConfig → String
unfolding github_oauth_config_for_credential
github_redirect_url_for_credential cfg cred =
    param_or "redirect_uri" cred
      (github_redirect_url_of (github_oauth_config_for_credential cfg cred.id))

-- notionConfigVersion
unfoldable pub notion_config_version : NotionOauthConfig → String
notion_config_version n = if is_set n.notion_version then n.notion_version else "2026-03-11"

module _ {S : Type 0} (o : Outside S) where
  abbrev pub env : String → String
  env = header_value_from_env o.platform.getenv

  -- serviceClientValue: a client's id or secret, given as a text or as a reference.
  unfoldable pub service_client_value : String → String → Op S String
  unfolding header_value_from_env resolve_ref
  service_client_value literal secret_ref =
      if is_set (env literal)
      then return (env literal)
      else if secret_ref == ""
      then return ""
      else resolve_ref o.platform.getenv o.store secret_ref

  abbrev param_or_value : String → CredentialConfig → Op S String → Op S String
  param_or_value key cred value =
      if is_set (env (param key cred.params)) then return (env (param key cred.params)) else value

  unfoldable pub google_client_value : String → String → Op S String
  unfolding service_client_value
  google_client_value literal secret_ref = service_client_value literal secret_ref

  abbrev google_id_of : Option GoogleOauthConfig → Op S String
  google_id_of none = return ""
  google_id_of (some c) = google_client_value c.client_id c.client_id_secret_ref

  unfoldable pub google_client_id : Config → CredentialConfig → Op S String
  unfolding google_client_value google_oauth_config_for_credential header_value_from_env
  google_client_id cfg cred =
      param_or_value "client_id" cred
        (google_id_of (google_oauth_config_for_credential cfg cred.id))

  abbrev google_secret_of : Option GoogleOauthConfig → Op S String
  google_secret_of none = return ""
  google_secret_of (some c) = google_client_value c.client_secret c.client_secret_ref

  unfoldable pub google_client_secret : Config → CredentialConfig → Op S String
  unfolding google_client_value google_oauth_config_for_credential header_value_from_env
  google_client_secret cfg cred =
      param_or_value "client_secret" cred
        (google_secret_of (google_oauth_config_for_credential cfg cred.id))

  unfoldable pub notion_client_value : String → String → Op S String
  unfolding service_client_value
  notion_client_value literal secret_ref = service_client_value literal secret_ref

  abbrev notion_id_of : Option NotionOauthConfig → Op S String
  notion_id_of none = return ""
  notion_id_of (some c) = notion_client_value c.client_id c.client_id_secret_ref

  unfoldable pub notion_client_id : Config → CredentialConfig → Op S String
  unfolding notion_client_value notion_oauth_config_for_credential header_value_from_env
  notion_client_id cfg cred =
      param_or_value "client_id" cred
        (notion_id_of (notion_oauth_config_for_credential cfg cred.id))

  abbrev notion_secret_of : Option NotionOauthConfig → Op S String
  notion_secret_of none = return ""
  notion_secret_of (some c) = notion_client_value c.client_secret c.client_secret_ref

  unfoldable pub notion_client_secret : Config → CredentialConfig → Op S String
  unfolding notion_client_value notion_oauth_config_for_credential header_value_from_env
  notion_client_secret cfg cred =
      param_or_value "client_secret" cred
        (notion_secret_of (notion_oauth_config_for_credential cfg cred.id))

  unfoldable pub todoist_client_value : String → String → Op S String
  unfolding service_client_value
  todoist_client_value literal secret_ref = service_client_value literal secret_ref

  abbrev todoist_id_of : Option TodoistOauthConfig → Op S String
  todoist_id_of none = return ""
  todoist_id_of (some c) = todoist_client_value c.client_id c.client_id_secret_ref

  unfoldable pub todoist_client_id : Config → CredentialConfig → Op S String
  unfolding todoist_client_value todoist_oauth_config_for_credential header_value_from_env
  todoist_client_id cfg cred =
      param_or_value "client_id" cred
        (todoist_id_of (todoist_oauth_config_for_credential cfg cred.id))

  abbrev todoist_secret_of : Option TodoistOauthConfig → Op S String
  todoist_secret_of none = return ""
  todoist_secret_of (some c) = todoist_client_value c.client_secret c.client_secret_ref

  unfoldable pub todoist_client_secret : Config → CredentialConfig → Op S String
  unfolding todoist_client_value todoist_oauth_config_for_credential header_value_from_env
  todoist_client_secret cfg cred =
      param_or_value "client_secret" cred
        (todoist_secret_of (todoist_oauth_config_for_credential cfg cred.id))

  unfoldable pub slack_client_value : String → String → Op S String
  unfolding service_client_value
  slack_client_value literal secret_ref = service_client_value literal secret_ref

  abbrev slack_id_of : Option SlackOauthConfig → Op S String
  slack_id_of none = return ""
  slack_id_of (some c) = slack_client_value c.client_id c.client_id_secret_ref

  unfoldable pub slack_client_id : Config → CredentialConfig → Op S String
  unfolding slack_client_value slack_oauth_config_for_credential header_value_from_env
  slack_client_id cfg cred =
      param_or_value "client_id" cred (slack_id_of (slack_oauth_config_for_credential cfg cred.id))

  abbrev slack_secret_of : Option SlackOauthConfig → Op S String
  slack_secret_of none = return ""
  slack_secret_of (some c) = slack_client_value c.client_secret c.client_secret_ref

  unfoldable pub slack_client_secret : Config → CredentialConfig → Op S String
  unfolding slack_client_value slack_oauth_config_for_credential header_value_from_env
  slack_client_secret cfg cred =
      param_or_value "client_secret" cred
        (slack_secret_of (slack_oauth_config_for_credential cfg cred.id))

  unfoldable pub github_client_value : String → String → Op S String
  unfolding service_client_value
  github_client_value literal secret_ref = service_client_value literal secret_ref

  abbrev github_id_of : Option GitHubOauthConfig → Op S String
  github_id_of none = return ""
  github_id_of (some c) = github_client_value c.client_id c.client_id_secret_ref

  unfoldable pub github_client_id : Config → CredentialConfig → Op S String
  unfolding github_client_value github_oauth_config_for_credential header_value_from_env
  github_client_id cfg cred =
      param_or_value "client_id" cred
        (github_id_of (github_oauth_config_for_credential cfg cred.id))

  abbrev github_secret_of : Option GitHubOauthConfig → Op S String
  github_secret_of none = return ""
  github_secret_of (some c) = github_client_value c.client_secret c.client_secret_ref

  unfoldable pub github_client_secret : Config → CredentialConfig → Op S String
  unfolding github_client_value github_oauth_config_for_credential header_value_from_env
  github_client_secret cfg cred =
      param_or_value "client_secret" cred
        (github_secret_of (github_oauth_config_for_credential cfg cred.id))
