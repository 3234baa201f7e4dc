-- ===== src/Auth/Providers/Github.antt =====
-- internal/auth/credential.go: githubOAuthToken.
use mathlib.Core.Option
use scia.Base.{String, ◌==◌, ◌||◌, Option, if◌then◌else◌}
use scia.Auth.Providers.{
  Client, endpoint, failing, client_id, client_secret, or_stored_access, by_broker, by_client,
  no_token, no_client_or_token,
}
use scia.Auth.Secrets.{env_param, secret_value, github_client_value}
use scia.Auth.Tokens.{or_cached_locked, or_cached}
use scia.Auth.Types.{Injector, Outside}
use scia.Config.Ids.{is_set}
use scia.Config.Lookup.{github_oauth_config_for_credential}
use scia.Config.Types.{Config, CredentialConfig, GitHubOauthConfig}
use scia.Auth.Monad.{Op, ◌>>=◌}

abbrev pub github_client : GitHubOauthConfig → Client
github_client g = record {
  id = g.client_id;
  id_ref = g.client_id_secret_ref;
  secret = g.client_secret;
  secret_ref = g.client_secret_ref;
  token_url = g.token_url;
}

abbrev pub github_client_of : Config → CredentialConfig → Option Client
github_client_of cfg cred =
    Option.map github_client (github_oauth_config_for_credential cfg cred.id)

module _ {S : Type 0} (o : Outside S) where
  abbrev pub github_request :
      Config → CredentialConfig → Option Client → String → String → String → Op (Injector S) String
  github_request cfg cred client refresh_token id secret =
      if id == "" || secret == ""
      then failing o no_client_or_token cred.id
      else by_client o cfg cred
          (endpoint cred "token_url" client "https://github.com/login/oauth/access_token") id secret
          refresh_token

  -- Behind the refresh token.
  abbrev pub github_refresh :
      Config → CredentialConfig → Option Client → String → Op (Injector S) String
  github_refresh cfg cred client refresh_token =
      if refresh_token == ""
      then failing o no_token cred.id
      else if is_set (env_param o cred "token_broker_url")
      then by_broker o cfg cred (env_param o cred "token_broker_url") refresh_token
      else client_id o (github_client_value o) cred client >>= λ id.
          client_secret o (github_client_value o) cred client
          >>= github_request cfg cred client refresh_token id

  unfoldable pub github_oauth_token : Config → CredentialConfig → Op (Injector S) String
  unfolding or_cached or_stored_access github_client_value secret_value by_broker by_client
  github_oauth_token cfg cred = or_cached_locked o cred.id (
      or_stored_access o cfg cred (
        secret_value o cfg cred "refresh_token"
        >>= github_refresh cfg cred (github_client_of cfg cred)))
