-- ===== src/Oauth/Exchange.antt =====
-- internal/oauth/server.go: the exchange of a login's code for the tokens of an account.
use Prim.Native.String.{◌++◌}
use scia.Base.{
  String, [], ◌∷◌, Bool, false, not, ◌||◌, ◌==◌, Option, none, some, Result, err, Error, errorf,
  str, if◌then◌else◌, ltb, ℤ, ℕ,
}
use scia.Auth.Monad.{Op, lift, return, ◌>>=◌}
use scia.Auth.Types.{Post}
use scia.Config.Ids.{is_set, default_to}
use scia.Config.Lookup.{
  param, google_oauth_config_for_credential, notion_oauth_config_for_credential,
  todoist_oauth_config_for_credential, slack_oauth_config_for_credential,
  github_oauth_config_for_credential,
}
use scia.Config.Types.{
  Config, CredentialConfig, GoogleOauthConfig, NotionOauthConfig, TodoistOauthConfig,
  SlackOauthConfig, GitHubOauthConfig,
}
use scia.Go.Http.{Header, Url}
use scia.Oauth.Clients.{
  notion_client_id, notion_client_secret, notion_config_version, google_client_id,
  todoist_client_id, slack_client_id, github_client_id, google_client_secret, todoist_client_secret,
  slack_client_secret, github_client_secret, todoist_redirect_url_for_credential,
  slack_redirect_url_for_credential, github_redirect_url_for_credential,
}
use scia.Oauth.Start.{Query, provider_redirect_url, set_if}
use scia.Oauth.Types.{Outside}

-- tokenResponse
pub record TokenResponse : Type 0 where
  pub ok : Option Bool
  pub access_token : String
  pub refresh_token : String
  pub token_type : String
  pub expires_in : ℤ
  pub error : String
  pub error_desc : String

-- The answer of a token endpoint: resp.StatusCode, resp.Status and the body.
pub record HttpResponse : Type 0 where
  pub status_code : ℕ
  pub status : String
  pub body : String

-- http.NewRequestWithContext's reading of a URL, http.Client.Do, url.Values.Encode, json.Marshal of a
-- map, base64.StdEncoding, and json.Decoder of a tokenResponse.
pub record TokenClient (S : Type 0) : Type 0 where
  pub request_url : String → Result Url
  pub send : Post → Op S HttpResponse
  pub encode_form : Query → String
  pub marshal : Query → String
  pub base64 : String → String
  pub decode : String → Result TokenResponse

abbrev fails : {S A : Type 0} → Error → Op S A
fails e = lift (err e)

abbrev provider_error : TokenResponse → Error
provider_error token = errorf "%s: %s" (str token.error ∷ str token.error_desc ∷ [])

abbrev endpoint : String → String → CredentialConfig → String
endpoint fallback configured cred =
    default_to (default_to fallback configured) (param "token_url" cred.params)

abbrev google_endpoint : Option GoogleOauthConfig → String
google_endpoint none = ""
google_endpoint (some g) = g.token_url

abbrev todoist_endpoint : Option TodoistOauthConfig → String
todoist_endpoint none = ""
todoist_endpoint (some t) = t.token_url

abbrev slack_endpoint : Option SlackOauthConfig → String
slack_endpoint none = ""
slack_endpoint (some s) = s.token_url

abbrev github_endpoint : Option GitHubOauthConfig → String
github_endpoint none = ""
github_endpoint (some g) = g.token_url

abbrev notion_endpoint : Option NotionOauthConfig → String
notion_endpoint none = ""
notion_endpoint (some n) = n.token_url

abbrev version_of : Option NotionOauthConfig → String
version_of none = "2026-03-11"
version_of (some n) = notion_config_version n

abbrev form_header : Header
form_header = ("Content-Type", "application/x-www-form-urlencoded" ∷ []) ∷ []

abbrev code_form : String → String → String → String → Query
code_form id secret code redirect_uri =
    ("client_id", id)
    ∷ ("client_secret", secret)
    ∷ ("code", code)
    ∷ set_if "redirect_uri" redirect_uri []

abbrev is_refusal : Option Bool → Bool
is_refusal none = false
is_refusal (some b) = not b

module _ {S : Type 0} (o : Outside S) (c : TokenClient S) where
  -- The request to a token endpoint, whose answer is decoded before its status is read.
  abbrev check_status : HttpResponse → TokenResponse → Op S TokenResponse
  check_status resp token =
      if not (ltb resp.status_code 200 || ltb 299 resp.status_code)
      then return token
      else if is_set token.error
      then fails (provider_error token)
      else fails (errorf "token endpoint returned %s" (str resp.status ∷ []))

  unfoldable pub post_body : String → Header → String → Op S TokenResponse
  post_body token_url header body = lift (c.request_url token_url) >>= λ url.
      c.send (record { url = url; header = header; body = body }) >>= λ resp.
      lift (c.decode resp.body) >>= check_status resp

  abbrev pub post_form : String → Header → Query → Op S TokenResponse
  post_form token_url header form = post_body token_url header (c.encode_form form)

  abbrev require : String → String → TokenResponse → Op S TokenResponse
  require text value token = if value == "" then fails (errorf text []) else return token

  -- exchangeCode
  unfoldable pub exchange_code :
      Config → String → CredentialConfig → String → String → Op S TokenResponse
  unfolding google_oauth_config_for_credential google_client_id google_client_secret
      provider_redirect_url post_body
  exchange_code cfg host cred code redirect_uri = google_client_id o cfg cred >>= λ id.
      google_client_secret o cfg cred >>= λ secret.
      post_form
        (endpoint "https://oauth2.googleapis.com/token"
          (google_endpoint (google_oauth_config_for_credential cfg cred.id)) cred)
        form_header
        (("grant_type", "authorization_code")
          ∷ ("code", code)
          ∷ ("client_id", id)
          ∷ ("client_secret", secret)
          ∷ ("redirect_uri", default_to (provider_redirect_url cfg host "google") redirect_uri)
          ∷ [])
      >>= λ token.
          require
            "google did not return a refresh_token; revoke access or use prompt=consent and try again"
            token.refresh_token token

  -- exchangeTodoistCode, which takes the redirect URI of the credential alone
  unfoldable pub exchange_todoist_code : Config → CredentialConfig → String → Op S TokenResponse
  unfolding todoist_oauth_config_for_credential todoist_client_id todoist_client_secret
      todoist_redirect_url_for_credential post_body
  exchange_todoist_code cfg cred code = todoist_client_id o cfg cred >>= λ id.
      todoist_client_secret o cfg cred >>= λ secret.
      post_form
        (endpoint "https://api.todoist.com/oauth/access_token"
          (todoist_endpoint (todoist_oauth_config_for_credential cfg cred.id)) cred)
        form_header (code_form id secret code (todoist_redirect_url_for_credential cfg cred))
      >>= λ token. require "todoist did not return an access_token" token.access_token token

  -- exchangeSlackCode; an answer with a good status may still say that it is a refusal.
  abbrev check_slack : TokenResponse → Op S TokenResponse
  check_slack token =
      if is_refusal token.ok
      then fails (provider_error token)
      else require "slack did not return an access_token" token.access_token token

  unfoldable pub exchange_slack_code :
      Config → CredentialConfig → String → String → Op S TokenResponse
  unfolding slack_oauth_config_for_credential slack_client_id slack_client_secret
      slack_redirect_url_for_credential post_body
  exchange_slack_code cfg cred code redirect_uri = slack_client_id o cfg cred >>= λ id.
      slack_client_secret o cfg cred >>= λ secret.
      post_form
        (endpoint "https://slack.com/api/oauth.v2.user.access"
          (slack_endpoint (slack_oauth_config_for_credential cfg cred.id)) cred)
        form_header
        (code_form id secret code
          (default_to (slack_redirect_url_for_credential cfg cred) redirect_uri))
      >>= check_slack

  -- exchangeGitHubCode
  unfoldable pub exchange_github_code :
      Config → CredentialConfig → String → String → Op S TokenResponse
  unfolding github_oauth_config_for_credential github_client_id github_client_secret
      github_redirect_url_for_credential post_body
  exchange_github_code cfg cred code redirect_uri = github_client_id o cfg cred >>= λ id.
      github_client_secret o cfg cred >>= λ secret.
      post_form
        (endpoint "https://github.com/login/oauth/access_token"
          (github_endpoint (github_oauth_config_for_credential cfg cred.id)) cred)
        (("Accept", "application/json" ∷ []) ∷ form_header)
        (code_form id secret code
          (default_to (github_redirect_url_for_credential cfg cred) redirect_uri))
      >>= λ token. require "github did not return an access_token" token.access_token token

  -- exchangeNotionCode, which takes the redirect URI of the configuration alone
  abbrev notion_header : String → String → Option NotionOauthConfig → Header
  notion_header id secret n =
      ("Accept", "application/json" ∷ [])
      ∷ ("Content-Type", "application/json" ∷ [])
      ∷ ("Notion-Version", version_of n ∷ [])
      ∷ ("Authorization", ("Basic " ++ c.base64 (id ++ (":" ++ secret))) ∷ [])
      ∷ []

  unfoldable pub exchange_notion_code :
      Config → String → CredentialConfig → String → Op S TokenResponse
  unfolding notion_oauth_config_for_credential notion_client_id notion_client_secret
      notion_config_version provider_redirect_url post_body
  exchange_notion_code cfg host cred code = notion_client_id o cfg cred >>= λ id.
      notion_client_secret o cfg cred >>= λ secret.
      post_body
        (endpoint "https://api.notion.com/v1/oauth/token"
          (notion_endpoint (notion_oauth_config_for_credential cfg cred.id)) cred)
        (notion_header id secret (notion_oauth_config_for_credential cfg cred.id))
        (c.marshal (
          ("grant_type", "authorization_code")
          ∷ ("code", code)
          ∷ ("redirect_uri", provider_redirect_url cfg host "notion")
          ∷ []))
      >>= λ token. require "notion did not return a refresh_token" token.refresh_token token
