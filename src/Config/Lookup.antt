-- ===== src/Config/Lookup.antt =====
-- config.go: the lookups of credentials, services and users in a configuration.
use scia.Base.{
  String, List, [], ◌∷◌, Bool, true, false, ◌&&◌, ◌||◌, ◌==◌, Option, none, some, if◌then◌else◌,
  lookup,
}
use scia.Config.Types.{
  Config, CredentialConfig, ServiceConfig, ServicesConfig, GoogleOauthConfig, NotionOauthConfig,
  TodoistOauthConfig, SlackOauthConfig, GitHubOauthConfig,
}
use scia.Config.Ids.{
  google_oauth_credential_id, notion_oauth_credential_id, todoist_oauth_credential_id,
  slack_oauth_credential_id, github_oauth_credential_id, google_has_client_config,
  notion_has_client_config, todoist_has_client_config, slack_has_client_config,
  github_has_client_config, is_set,
}
use scia.Config.Names.{valid_dynamic_user_id}
use scia.Go.{is_some, cut}

-- The first credential with the id.
unfoldable pub find_credential : String → List CredentialConfig → Option CredentialConfig
find_credential id [] = none
find_credential id (c ∷ cs) = if c.id == id then some c else find_credential id cs

-- A credential that stands for a provider or a service.
abbrev pub implied : String → String → CredentialConfig
implied id type = record { id = id; type = type; header = ""; value = ""; params = [] }

-- The first service whose OAuth client has the credential id.
abbrev pub oauth_id_is : String → ServiceConfig → Bool
oauth_id_is id s = elim s.oauth [ none ↦ false | some o ↦ o.credential_id == id ]

unfoldable pub find_by_credential : String → ServicesConfig → Option (String × ServiceConfig)
find_by_credential id [] = none
find_by_credential id ((k, s) ∷ m) =
    if oauth_id_is id s then some (k, s) else find_by_credential id m

-- ServiceByCredentialID
unfoldable pub service_by_credential_id : Config → String → Option (String × ServiceConfig)
unfolding find_by_credential
service_by_credential_id cfg id = find_by_credential id cfg.server.services

-- ServiceByID
unfoldable pub service_by_id : Config → String → Option ServiceConfig
service_by_id cfg id = lookup id cfg.server.services

-- CredentialByID: a listed credential, a configured provider, or the client of a service.
unfoldable pub provider_credential : Config → String → Option CredentialConfig
provider_credential cfg id =
    if google_has_client_config cfg.server.oauth.google && id == google_oauth_credential_id cfg
    then some (implied id "google-oauth-refresh-token")
    else if notion_has_client_config cfg.server.oauth.notion && id == notion_oauth_credential_id cfg
    then some (implied id "notion-oauth-refresh-token")
    else if todoist_has_client_config cfg.server.oauth.todoist
        && id == todoist_oauth_credential_id cfg
    then some (implied id "todoist-oauth-refresh-token")
    else if slack_has_client_config cfg.server.oauth.slack && id == slack_oauth_credential_id cfg
    then some (implied id "slack-user-oauth-token")
    else if github_has_client_config cfg.server.oauth.github && id == github_oauth_credential_id cfg
    then some (implied id "github-oauth-token")
    else none

abbrev pub or_else {ℓ} : {A : Type ℓ} → Option A → Option A → Option A
or_else none b = b
or_else (some a) b = some a

abbrev pub service_credential : Config → String → Option CredentialConfig
service_credential cfg id =
    if is_some (service_by_credential_id cfg id) then some (implied id "generic-oauth") else none

unfoldable pub credential_by_id : Config → String → Option CredentialConfig
credential_by_id cfg id =
    or_else (find_credential id cfg.credentials)
      (or_else (provider_credential cfg id) (service_credential cfg id))

-- GoogleOAuthConfigForCredential
unfoldable pub google_oauth_config_for_credential : Config → String → Option GoogleOauthConfig
google_oauth_config_for_credential cfg id =
    if id == "" || id == google_oauth_credential_id cfg
    then (if google_has_client_config cfg.server.oauth.google
        then some cfg.server.oauth.google
        else none)
    else none

-- NotionOAuthConfigForCredential
unfoldable pub notion_oauth_config_for_credential : Config → String → Option NotionOauthConfig
notion_oauth_config_for_credential cfg id =
    if id == "" || id == notion_oauth_credential_id cfg
    then (if notion_has_client_config cfg.server.oauth.notion
        then some cfg.server.oauth.notion
        else none)
    else none

-- TodoistOAuthConfigForCredential
unfoldable pub todoist_oauth_config_for_credential : Config → String → Option TodoistOauthConfig
todoist_oauth_config_for_credential cfg id =
    if id == "" || id == todoist_oauth_credential_id cfg
    then (if todoist_has_client_config cfg.server.oauth.todoist
        then some cfg.server.oauth.todoist
        else none)
    else none

-- SlackOAuthConfigForCredential
unfoldable pub slack_oauth_config_for_credential : Config → String → Option SlackOauthConfig
slack_oauth_config_for_credential cfg id =
    if id == "" || id == slack_oauth_credential_id cfg
    then (if slack_has_client_config cfg.server.oauth.slack
        then some cfg.server.oauth.slack
        else none)
    else none

-- GitHubOAuthConfigForCredential
unfoldable pub github_oauth_config_for_credential : Config → String → Option GitHubOauthConfig
github_oauth_config_for_credential cfg id =
    if id == "" || id == github_oauth_credential_id cfg
    then (if github_has_client_config cfg.server.oauth.github
        then some cfg.server.oauth.github
        else none)
    else none

-- HasConfiguredUser, HasUser, HasDynamicUser
unfoldable pub has_configured_user : Config → String → Bool
has_configured_user c id = is_some (lookup id c.server.users)

abbrev dynamic_user : Config → String → Bool
dynamic_user c id =
    c.server.secrets.mode == "kubernetes"
    && c.server.secrets.kubernetes.dynamic_users
    && valid_dynamic_user_id id

unfoldable pub has_user : Config → String → Bool
unfolding has_configured_user valid_dynamic_user_id
has_user c id = if has_configured_user c id then true else dynamic_user c id

unfoldable pub has_dynamic_user : Config → String → Bool
unfolding has_configured_user valid_dynamic_user_id
has_dynamic_user c id = if has_configured_user c id then false else dynamic_user c id

abbrev pub param : String → List (String × String) → String
param k m = elim (lookup k m) [ none ↦ "" | some v ↦ v ]

abbrev known_prefix : Config → Option (String × String) → Option String
known_prefix cfg none = none
known_prefix cfg (some (user, rest)) = if has_user cfg user then some user else none

-- CredentialUserID: the user of the parameters, or of the id's first part, or the id.
unfoldable pub credential_user_id : Config → CredentialConfig → String
unfolding has_user cut
credential_user_id cfg cred =
    if is_set (param "user" cred.params)
    then param "user" cred.params
    else elim (known_prefix cfg (cut cred.id b'.')) [ none ↦ cred.id | some user ↦ user ]
