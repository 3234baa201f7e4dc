-- ===== src/Oauth/Start.antt =====
-- internal/oauth/server.go: what is common to the handlers that send a user to a provider's login page.
use Prim.Native.String.{◌++◌}
pub mod Providers
pub mod Generic
use scia.Base.{
  ℕ, String, List, [], ◌∷◌, Bool, true, false, not, ◌&&◌, ◌||◌, ◌==◌, Option, none, some, Result,
  ok, err, Error, errorf, lookup, insert, if◌then◌else◌,
}
use scia.Config.Ids.{is_set, default_to, scope_param_name, scope_param_separator}
use scia.Config.Lookup.{
  has_user, notion_oauth_config_for_credential, todoist_oauth_config_for_credential,
  slack_oauth_config_for_credential, github_oauth_config_for_credential,
}
use scia.Config.Types.{
  Config, CredentialConfig, ServiceConfig, ServiceOauthConfig, NotionOauthConfig,
  TodoistOauthConfig, SlackOauthConfig, GitHubOauthConfig,
}
use scia.Go.{has_prefix, join}
use scia.Oauth.Clients.{
  google_credential, notion_credential, todoist_credential, slack_credential, github_credential,
  google_client_id, notion_client_id, todoist_client_id, slack_client_id, github_client_id,
  google_scope, todoist_scope, slack_scope, github_scope, slack_redirect_url_for_credential,
  github_redirect_url_for_credential, service_client_value,
}
use scia.Oauth.Scopes.{oauth_scope_from_request, split_scope_values}
use scia.Oauth.State.{create_state}
use scia.Oauth.Types.{StateInfo, Outside}
use scia.Oauth.Users.{UserRequest, Verdict, granted, refused, authorize_dynamic_user_request}

-- The parameters of a query.
abbrev pub Query : Type 0
Query = List (String × String)

-- What a handler answers: http.Error, or a redirection to a URL with a query.
pub data Reply : Type 0 where
  failed : ℕ → Error → Reply
  redirected : String → Query → Reply

abbrev pub bad_request : {S : Type 0} → String → S → S × Reply
bad_request text s = (s, failed 400 (errorf text []))

-- A call that may fail, whose error is answered, and the rest of the handler.
abbrev pub or_fail :
    {S A : Type 0} → (Error → Reply) → S × Result A → (A → S → S × Reply) → S × Reply
or_fail reply (s, ok a) k = k a s
or_fail reply (s, err e) k = (s, reply e)

abbrev pub or_bad_request : {S A : Type 0} → String → Option A → (A → S → S × Reply) → S → S × Reply
or_bad_request text none k s = bad_request text s
or_bad_request text (some a) k s = k a s

abbrev pub or_missing : {S : Type 0} → (String → S → S × Reply) → String → S → S × Reply
or_missing k id s = if id == "" then bad_request "credential is missing client_id" s else k id s

-- ListenAddr
unfoldable pub listen_addr : Config → String
listen_addr cfg = default_to "127.0.0.1:8081" cfg.server.oauth.listen

-- providerRedirectURL of a request with a host
abbrev own_redirect_url : Config → String → String
own_redirect_url cfg provider =
    if provider == "google"
    then cfg.server.oauth.google.redirect_url
    else if provider == "notion"
    then cfg.server.oauth.notion.redirect_url
    else if provider == "todoist"
    then cfg.server.oauth.todoist.redirect_url
    else if provider == "slack"
    then cfg.server.oauth.slack.redirect_url
    else if provider == "github"
    then cfg.server.oauth.github.redirect_url
    else ""

abbrev with_name : String → String
with_name host = if has_prefix host ":" then "localhost" ++ host else host

abbrev callback_url : String → String → String
callback_url host provider = "http://" ++ (host ++ ("/oauth/" ++ (provider ++ "/callback")))

unfoldable pub provider_redirect_url : Config → String → String → String
unfolding has_prefix listen_addr
provider_redirect_url cfg host provider =
    if is_set (own_redirect_url cfg provider)
    then own_redirect_url cfg provider
    else if is_set cfg.server.oauth.redirect_url
    then cfg.server.oauth.redirect_url
    else callback_url (with_name (default_to ("localhost" ++ listen_addr cfg) host)) provider

abbrev pub set_if : String → String → Query → Query
set_if key value q = if is_set value then insert key value q else q

-- The query of a login with a scope.
abbrev pub code_query : String → String → String → String → Query
code_query client_id redirect_uri scope state =
    ("client_id", client_id)
    ∷ set_if "redirect_uri" redirect_uri
        (("response_type", "code") ∷ ("scope", scope) ∷ ("state", state) ∷ [])

abbrev pub info_for : String → String → String → StateInfo
info_for user credential_id redirect_uri = record {
  user = user;
  credential_id = credential_id;
  redirect_uri = redirect_uri;
  created_at = none;
}

module _ {S : Type 0} (o : Outside S) (itoa : ℕ → String) where
  -- The test of the user with which every start begins.
  abbrev pub after_verdict : S × Verdict → (S → S × Reply) → S × Reply
  after_verdict (s, granted) k = k s
  after_verdict (s, refused status text) k = (s, failed status (errorf text []))

  unfoldable pub check_user : UserRequest → Config → (S → S × Reply) → S → S × Reply
  unfolding has_user authorize_dynamic_user_request
  check_user r cfg k s =
      if not (cfg.server.secrets.mode == "kubernetes")
      then k s
      else if r.query "user" == ""
      then bad_request "user is required in kubernetes mode" s
      else if not (has_user cfg (r.query "user"))
      then bad_request "unknown user" s
      else after_verdict (authorize_dynamic_user_request o r cfg (r.query "user") s) k

  abbrev pub or_error : {A : Type 0} → S × Result A → (A → S → S × Reply) → S × Reply
  or_error = or_fail (failed 400)

  -- s.createState and the redirection
  abbrev pub send_off : Config → String → StateInfo → String → (String → Query) → S → S × Reply
  send_off cfg provider info url query s =
      or_fail (λ _. failed 500 (errorf "failed to create state" []))
        (create_state o cfg provider info s) (λ state s. (s, redirected url (query state)))

  abbrev pub with_scope :
      Config
      → CredentialConfig
      → String
      → UserRequest
      → String
      → String
      → (String → S → S × Reply)
      → S
      → S × Reply
  with_scope cfg cred provider r configured fallback k s =
      or_error
        (
          s,
          oauth_scope_from_request itoa cfg cred.id provider (r.query "scope") configured fallback,
        )
        k
