-- ===== src/Auth/Providers/Todoist.antt =====
-- internal/auth/credential.go: todoistRefreshToken.
use mathlib.Core.Option
use scia.Base.{String, ◌==◌, ◌||◌, Option, if◌then◌else◌}
use scia.Auth.Providers.{
  Client, endpoint, failing, client_id, client_secret, or_stored_access, by_broker, by_client,
  no_token, no_client_or_token,
}
use scia.Auth.Secrets.{env_param, secret_value, todoist_client_value}
use scia.Auth.Tokens.{or_cached_locked, or_cached}
use scia.Auth.Types.{Injector, Outside}
use scia.Config.Ids.{is_set}
use scia.Config.Lookup.{todoist_oauth_config_for_credential}
use scia.Config.Types.{Config, CredentialConfig, TodoistOauthConfig}
use scia.Auth.Monad.{Op, ◌>>=◌}

abbrev pub todoist_client : TodoistOauthConfig → Client
todoist_client t = record {
  id = t.client_id;
  id_ref = t.client_id_secret_ref;
  secret = t.client_secret;
  secret_ref = t.client_secret_ref;
  token_url = t.token_url;
}

abbrev pub todoist_client_of : Config → CredentialConfig → Option Client
todoist_client_of cfg cred =
    Option.map todoist_client (todoist_oauth_config_for_credential cfg cred.id)

module _ {S : Type 0} (o : Outside S) where
  abbrev pub todoist_request :
      Config → CredentialConfig → Option Client → String → String → String → Op (Injector S) String
  todoist_request cfg cred client id secret refresh_token =
      if is_set (env_param o cred "token_broker_url")
      then (if refresh_token == ""
          then failing o no_token cred.id
          else by_broker o cfg cred (env_param o cred "token_broker_url") refresh_token)
      else if id == "" || secret == "" || refresh_token == ""
      then failing o no_client_or_token cred.id
      else by_client o cfg cred
          (endpoint cred "token_url" client "https://api.todoist.com/oauth/access_token") id secret
          refresh_token

  abbrev pub todoist_refresh : Config → CredentialConfig → Option Client → Op (Injector S) String
  todoist_refresh cfg cred client = client_id o (todoist_client_value o) cred client >>= λ id.
      client_secret o (todoist_client_value o) cred client >>= λ secret.
      secret_value o cfg cred "refresh_token" >>= todoist_request cfg cred client id secret

  unfoldable pub todoist_refresh_token : Config → CredentialConfig → Op (Injector S) String
  unfolding or_cached or_stored_access todoist_client_value secret_value by_broker by_client
  todoist_refresh_token cfg cred =
      or_cached_locked o cred.id
        (or_stored_access o cfg cred (todoist_refresh cfg cred (todoist_client_of cfg cred)))
