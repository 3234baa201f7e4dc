-- ===== src/Auth/Inject.antt =====
-- internal/auth/credential.go: what the injector writes into a request.
use Prim.Native.String.{◌++◌}
use scia.Base.{
  String, List, [], ◌∷◌, ◌||◌, ◌==◌, Option, none, some, Result, ok, err, errorf, str,
  if◌then◌else◌,
}
use scia.Auth.Generic.{generic_credential}
use scia.Auth.Providers.{failing}
use scia.Auth.Providers.Grants.{client_credentials_token, google_refresh_token}
use scia.Auth.Providers.Github.{github_oauth_token}
use scia.Auth.Providers.Notion.{notion_refresh_token}
use scia.Auth.Providers.Slack.{slack_user_token}
use scia.Auth.Providers.Todoist.{todoist_refresh_token}
use scia.Auth.Secrets.{env, env_param, secret_value}
use scia.Auth.Types.{Fields, Injector, Outside}
use scia.Config.Lookup.{credential_by_id}
use scia.Config.Types.{Config, CredentialConfig}
use scia.Go.Http.{header_get, header_set, Request}
use scia.Auth.Monad.{Op, return, ◌>>=◌}

-- r.Header.Set on the request
abbrev pub set_header : String → String → Request → Request
set_header name value r = record r { header = header_set r.header name value }

abbrev pub set_bearer : Request → String → Request
set_bearer r token = set_header "Authorization" ("Bearer " ++ token) r

abbrev pub set_default_header : String → String → Request → Request
set_default_header name value r =
    if header_get r.header name == "" then set_header name value r else r

module _ {S : Type 0} (o : Outside S) where
  abbrev pub set_basic : String → Request → Request
  set_basic user_and_password r =
      set_header "Authorization" ("Basic " ++ o.base64 user_and_password) r

  -- applyAuthMethod
  abbrev needs_token : String → String → Request → Result Request
  needs_token method token r =
      if token == "" then err (errorf (method ++ " auth requires access_token") []) else ok r

  unfoldable pub apply_auth_method : Request → String → String → Result Request
  unfolding header_set
  apply_auth_method r method token =
      if method == "" || method == "none"
      then ok r
      else if method == "bearer"
      then needs_token method token (set_bearer r token)
      else if method == "basic-x-access-token"
      then needs_token method token (set_basic ("x-access-token:" ++ token) r)
      else if method == "basic"
      then needs_token method token (set_basic token r)
      else err (errorf "unsupported authMethod %q" (str method ∷ []))

  abbrev pub notion_headers : Request → String × String → Op (Injector S) Request
  notion_headers r (token, version) =
      return (set_default_header "Notion-Version" version (set_bearer r token))

  abbrev pub with_bearer : Request → Op (Injector S) String → Op (Injector S) Request
  with_bearer r m = m >>= λ token. return (set_bearer r token)

  -- applyOne: the types whose value is the token of a token endpoint, and the others
  abbrev pub apply_token_type : Config → CredentialConfig → Request → Op (Injector S) Request
  apply_token_type cfg cred r =
      if cred.type == "oauth2-client-credentials"
      then with_bearer r (client_credentials_token o cred)
      else if cred.type == "google-oauth-refresh-token"
      then with_bearer r (google_refresh_token o cfg cred)
      else if cred.type == "notion-oauth-refresh-token"
      then (notion_refresh_token o cfg cred >>= notion_headers r)
      else if cred.type == "todoist-oauth-refresh-token"
      then with_bearer r (todoist_refresh_token o cfg cred)
      else if cred.type == "slack-user-oauth-token"
      then with_bearer r (slack_user_token o cfg cred)
      else if cred.type == "github-oauth-token"
      then with_bearer r (github_oauth_token o cfg cred)
      else failing o "unsupported credential type %q" cred.type

  unfoldable pub apply_one : Config → CredentialConfig → Request → Op (Injector S) Request
  unfolding header_set header_get client_credentials_token google_refresh_token notion_refresh_token
      todoist_refresh_token slack_user_token github_oauth_token
  apply_one cfg cred r =
      if cred.type == "bearer"
      then return (set_bearer r (env o cred.value))
      else if cred.type == "basic"
      then return
          (set_basic (env_param o cred "username" ++ (":" ++ env_param o cred "password")) r)
      else if cred.type == "static-header"
      then (if cred.header == ""
          then failing o "credential %q requires header" cred.id
          else return (set_header cred.header (env o cred.value) r))
      else apply_token_type cfg cred r

  -- Apply
  abbrev pub apply_found :
      Config → String → Option CredentialConfig → Request → Op (Injector S) Request
  apply_found cfg id none r = failing o "credential %q not found" id
  apply_found cfg id (some cred) r = apply_one cfg cred r

  unfoldable pub apply : Config → List String → Request → Op (Injector S) Request
  unfolding credential_by_id apply_one
  apply cfg [] r = return r
  apply cfg (id ∷ ids) r = apply_found cfg id (credential_by_id cfg id) r >>= apply cfg ids

  -- renderInjection, whose template may call `secret`
  abbrev secret : Config → String → String → Op (Injector S) String
  secret cfg id key =
      if id == ""
      then failing o "secret %q requires oauth credential" key
      else secret_value o cfg (generic_credential id) key

  unfoldable pub render_injection : Config → String → String → Fields → Op (Injector S) String
  unfolding secret_value
  render_injection cfg id raw fields = o.execute raw fields (secret cfg id)
