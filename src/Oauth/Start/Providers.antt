-- ===== src/Oauth/Start/Providers.antt =====
-- internal/oauth/server.go: the starts of the five providers' logins.
use scia.Base.{ℕ, String, [], ◌∷◌, Option, none, some}
use scia.Config.Ids.{default_to}
use scia.Config.Lookup.{
  notion_oauth_config_for_credential, todoist_oauth_config_for_credential,
  slack_oauth_config_for_credential, github_oauth_config_for_credential,
}
use scia.Config.Types.{
  Config, CredentialConfig, NotionOauthConfig, TodoistOauthConfig, SlackOauthConfig,
  GitHubOauthConfig,
}
use scia.Oauth.Clients.{
  google_credential, notion_credential, todoist_credential, slack_credential, github_credential,
  google_client_id, notion_client_id, todoist_client_id, slack_client_id, github_client_id,
  google_scope, todoist_scope, slack_scope, github_scope, slack_redirect_url_for_credential,
  github_redirect_url_for_credential,
}
use scia.Oauth.Scopes.{oauth_scope_from_request}
use scia.Oauth.State.{create_state}
use scia.Oauth.Types.{Outside}
use scia.Oauth.Users.{UserRequest}
use scia.Oauth.Start.{
  Reply, or_bad_request, or_missing, provider_redirect_url, code_query, info_for, check_user,
  or_error, send_off, with_scope,
}

-- The provider's login page.
abbrev notion_auth_url : Option NotionOauthConfig → String
notion_auth_url none = "https://api.notion.com/v1/oauth/authorize"
notion_auth_url (some n) = default_to "https://api.notion.com/v1/oauth/authorize" n.auth_url

abbrev todoist_auth_url : Option TodoistOauthConfig → String
todoist_auth_url none = "https://app.todoist.com/oauth/authorize"
todoist_auth_url (some t) = default_to "https://app.todoist.com/oauth/authorize" t.auth_url

abbrev todoist_redirect : Option TodoistOauthConfig → String
todoist_redirect none = ""
todoist_redirect (some t) = t.redirect_url

abbrev slack_auth_url : Option SlackOauthConfig → String
slack_auth_url none = "https://slack.com/oauth/v2_user/authorize"
slack_auth_url (some s) = default_to "https://slack.com/oauth/v2_user/authorize" s.auth_url

abbrev github_auth_url : Option GitHubOauthConfig → String
github_auth_url none = "https://github.com/login/oauth/authorize"
github_auth_url (some g) = default_to "https://github.com/login/oauth/authorize" g.auth_url

module _ {S : Type 0} (o : Outside S) (itoa : ℕ → String) where
  -- startGoogle
  abbrev google_login : Config → String → UserRequest → CredentialConfig → S → S × Reply
  google_login cfg host r cred s =
      let redirect_uri =
        default_to (provider_redirect_url cfg host "google") (r.query "redirect_uri") in
      or_error o itoa (google_client_id o cfg cred s) (
        or_missing λ client_id.
          with_scope o itoa cfg cred "google" r (google_scope cfg cred) "openid email profile"
            (λ scope.
              send_off o itoa cfg "google"
                (info_for (r.query "user") (r.query "credential") redirect_uri)
                "https://accounts.google.com/o/oauth2/v2/auth"
                (λ state.
                  ("client_id", client_id)
                  ∷ ("redirect_uri", redirect_uri)
                  ∷ ("response_type", "code")
                  ∷ ("scope", scope)
                  ∷ ("access_type", "offline")
                  ∷ ("prompt", "consent")
                  ∷ ("state", state)
                  ∷ [])))

  unfoldable pub start_google : Config → String → UserRequest → S → S × Reply
  unfolding google_credential google_client_id google_scope oauth_scope_from_request
      provider_redirect_url create_state
  start_google cfg host r = check_user o itoa r cfg (
      or_bad_request "unknown google credential" (google_credential cfg (r.query "credential"))
        (google_login cfg host r))

  -- startNotion
  abbrev notion_login : Config → String → UserRequest → CredentialConfig → S → S × Reply
  notion_login cfg host r cred s = or_error o itoa (notion_client_id o cfg cred s) (
      or_missing λ client_id.
        send_off o itoa cfg "notion" (info_for (r.query "user") (r.query "credential") "")
          (notion_auth_url (notion_oauth_config_for_credential cfg cred.id))
          (λ state.
            ("client_id", client_id)
            ∷ ("redirect_uri", provider_redirect_url cfg host "notion")
            ∷ ("response_type", "code")
            ∷ ("owner", "user")
            ∷ ("state", state)
            ∷ []))

  unfoldable pub start_notion : Config → String → UserRequest → S → S × Reply
  unfolding notion_credential notion_client_id provider_redirect_url create_state
      notion_oauth_config_for_credential
  start_notion cfg host r = check_user o itoa r cfg (
      or_bad_request "unknown notion credential" (notion_credential cfg (r.query "credential"))
        (notion_login cfg host r))

  -- startTodoist
  abbrev todoist_login : Config → UserRequest → CredentialConfig → S → S × Reply
  todoist_login cfg r cred s =
      let client = todoist_oauth_config_for_credential cfg cred.id in
      or_error o itoa (todoist_client_id o cfg cred s) (
        or_missing λ client_id.
          with_scope o itoa cfg cred "todoist" r (todoist_scope cfg cred) "data:read" (λ scope.
            send_off o itoa cfg "todoist" (info_for (r.query "user") (r.query "credential") "")
              (todoist_auth_url client) (code_query client_id (todoist_redirect client) scope)))

  unfoldable pub start_todoist : Config → UserRequest → S → S × Reply
  unfolding todoist_credential todoist_client_id todoist_scope oauth_scope_from_request create_state
      todoist_oauth_config_for_credential
  start_todoist cfg r = check_user o itoa r cfg (
      or_bad_request "unknown todoist credential" (todoist_credential cfg (r.query "credential"))
        (todoist_login cfg r))

  -- startSlack
  abbrev slack_login : Config → UserRequest → CredentialConfig → S → S × Reply
  slack_login cfg r cred s =
      let redirect_uri =
        default_to (slack_redirect_url_for_credential cfg cred) (r.query "redirect_uri") in
      or_error o itoa (slack_client_id o cfg cred s) (
        or_missing λ client_id.
          with_scope o itoa cfg cred "slack" r (slack_scope cfg cred) "users:read" (λ scope.
            send_off o itoa cfg "slack"
              (info_for (r.query "user") (r.query "credential") redirect_uri)
              (slack_auth_url (slack_oauth_config_for_credential cfg cred.id))
              (code_query client_id redirect_uri scope)))

  unfoldable pub start_slack : Config → UserRequest → S → S × Reply
  unfolding slack_credential slack_client_id slack_scope oauth_scope_from_request create_state
      slack_redirect_url_for_credential slack_oauth_config_for_credential
  start_slack cfg r = check_user o itoa r cfg (
      or_bad_request "unknown slack credential" (slack_credential cfg (r.query "credential"))
        (slack_login cfg r))

  -- startGitHub
  abbrev github_login : Config → UserRequest → CredentialConfig → S → S × Reply
  github_login cfg r cred s =
      let redirect_uri =
        default_to (github_redirect_url_for_credential cfg cred) (r.query "redirect_uri") in
      or_error o itoa (github_client_id o cfg cred s) (
        or_missing λ client_id.
          with_scope o itoa cfg cred "github" r (github_scope cfg cred) "read:user" (λ scope.
            send_off o itoa cfg "github"
              (info_for (r.query "user") (r.query "credential") redirect_uri)
              (github_auth_url (github_oauth_config_for_credential cfg cred.id))
              (code_query client_id redirect_uri scope)))

  unfoldable pub start_github : Config → UserRequest → S → S × Reply
  unfolding github_credential github_client_id github_scope oauth_scope_from_request create_state
      github_redirect_url_for_credential github_oauth_config_for_credential
  start_github cfg r = check_user o itoa r cfg (
      or_bad_request "unknown github credential" (github_credential cfg (r.query "credential"))
        (github_login cfg r))
