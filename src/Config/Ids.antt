-- ===== src/Config/Ids.antt =====
-- config.go: the OAuth providers' credential ids, and whether their clients are configured.
use scia.Base.{
  String, Bool, not, ◌&&◌, ◌||◌, ◌==◌, if◌then◌else◌, none, some, ◌≢◌, inl, inr, Text-cases,
  ne_of_test,
}
use scia.Config.Types.{
  Config, GoogleOauthConfig, NotionOauthConfig, TodoistOauthConfig, SlackOauthConfig,
  GitHubOauthConfig, ServiceOauthConfig, TokenRequestConfig,
}

abbrev pub default_to : String → String → String
default_to d s = if s == "" then d else s

pub default_to-ne : (d s : String) → d ≢ "" → default_to d s ≢ ""
default_to-ne d s h = elim (Text-cases s "") [ inl e ↦ rw e h | inr e ↦ rw e (ne_of_test s "" e) ]

abbrev pub is_set : String → Bool
is_set s = not (s == "")

-- GoogleOAuthCredentialID and its siblings
unfoldable pub google_oauth_credential_id : Config → String
google_oauth_credential_id c =
    if is_set c.server.oauth.google.credential_id
    then c.server.oauth.google.credential_id
    else "google"

unfoldable pub notion_oauth_credential_id : Config → String
notion_oauth_credential_id c =
    if is_set c.server.oauth.notion.credential_id
    then c.server.oauth.notion.credential_id
    else "notion"

unfoldable pub todoist_oauth_credential_id : Config → String
todoist_oauth_credential_id c =
    if is_set c.server.oauth.todoist.credential_id
    then c.server.oauth.todoist.credential_id
    else "todoist"

unfoldable pub slack_oauth_credential_id : Config → String
slack_oauth_credential_id c =
    if is_set c.server.oauth.slack.credential_id
    then c.server.oauth.slack.credential_id
    else "slack"

unfoldable pub github_oauth_credential_id : Config → String
github_oauth_credential_id c =
    if is_set c.server.oauth.github.credential_id
    then c.server.oauth.github.credential_id
    else "github"

-- HasClientConfig: an id and a secret, each in the clear or as a reference.
abbrev client_set : String → String → String → String → Bool
client_set id id_ref secret secret_ref =
    (is_set id || is_set id_ref) && (is_set secret || is_set secret_ref)

unfoldable pub google_has_client_config : GoogleOauthConfig → Bool
google_has_client_config g =
    client_set g.client_id g.client_id_secret_ref g.client_secret g.client_secret_ref

unfoldable pub notion_has_client_config : NotionOauthConfig → Bool
notion_has_client_config n =
    client_set n.client_id n.client_id_secret_ref n.client_secret n.client_secret_ref

unfoldable pub todoist_has_client_config : TodoistOauthConfig → Bool
todoist_has_client_config t =
    client_set t.client_id t.client_id_secret_ref t.client_secret t.client_secret_ref

unfoldable pub slack_has_client_config : SlackOauthConfig → Bool
slack_has_client_config s =
    client_set s.client_id s.client_id_secret_ref s.client_secret s.client_secret_ref

unfoldable pub github_has_client_config : GitHubOauthConfig → Bool
github_has_client_config g =
    client_set g.client_id g.client_id_secret_ref g.client_secret g.client_secret_ref

-- ScopeParamName, ScopeParamSeparator
unfoldable pub scope_param_name : ServiceOauthConfig → String
scope_param_name o = elim o.scope_param.name [ none ↦ "scope" | some n ↦ n ]

unfoldable pub scope_param_separator : ServiceOauthConfig → String
scope_param_separator o = if o.scope_param.separator == "" then " " else o.scope_param.separator

-- ResolvedCodeGrantType, ResolvedRefreshGrantType, RefreshURL
unfoldable pub resolved_code_grant_type : TokenRequestConfig → String
resolved_code_grant_type t = elim t.code_grant_type [ none ↦ "authorization_code" | some g ↦ g ]

unfoldable pub resolved_refresh_grant_type : TokenRequestConfig → String
resolved_refresh_grant_type t = elim t.refresh_grant_type [ none ↦ "refresh_token" | some g ↦ g ]

unfoldable pub refresh_url : TokenRequestConfig → String → String
refresh_url t token_url = if is_set t.refresh_token_url then t.refresh_token_url else token_url
