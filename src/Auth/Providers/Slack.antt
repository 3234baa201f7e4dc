-- ===== src/Auth/Providers/Slack.antt =====
-- internal/auth/credential.go: slackUserToken.
use mathlib.Core.Option
use scia.Base.{String, ◌==◌, ◌||◌, Option, if◌then◌else◌}
use scia.Auth.Providers.{
  Client, endpoint, failing, client_id, client_secret, or_stored_access, by_broker, by_client,
  no_token, no_client_or_token,
}
use scia.Auth.Secrets.{env_param, secret_value, slack_client_value}
use scia.Auth.Tokens.{or_cached_locked, or_cached}
use scia.Auth.Types.{Injector, Outside}
use scia.Config.Ids.{is_set, default_to}
use scia.Config.Lookup.{slack_oauth_config_for_credential}
use scia.Config.Types.{Config, CredentialConfig, SlackOauthConfig}
use scia.Auth.Monad.{Op, ◌>>=◌}

-- The endpoint for refreshes comes before the one for codes.
abbrev pub slack_client : SlackOauthConfig → Client
slack_client s = record {
  id = s.client_id;
  id_ref = s.client_id_secret_ref;
  secret = s.client_secret;
  secret_ref = s.client_secret_ref;
  token_url = default_to s.token_url s.refresh_token_url;
}

abbrev pub slack_client_of : Config → CredentialConfig → Option Client
slack_client_of cfg cred = Option.map slack_client (slack_oauth_config_for_credential cfg cred.id)

module _ {S : Type 0} (o : Outside S) where
  abbrev pub slack_request :
      Config → CredentialConfig → Option Client → String → String → String → Op (Injector S) String
  slack_request cfg cred client refresh_token id secret =
      if id == "" || secret == ""
      then failing o no_client_or_token cred.id
      else by_client o cfg cred
          (endpoint cred "refresh_token_url" client "https://slack.com/api/oauth.v2.access") id
          secret refresh_token

  -- Behind the refresh token.
  abbrev pub slack_refresh :
      Config → CredentialConfig → Option Client → String → Op (Injector S) String
  slack_refresh cfg cred client refresh_token =
      if refresh_token == ""
      then failing o no_token cred.id
      else if is_set (env_param o cred "token_broker_url")
      then by_broker o cfg cred (env_param o cred "token_broker_url") refresh_token
      else client_id o (slack_client_value o) cred client >>= λ id.
          client_secret o (slack_client_value o) cred client
          >>= slack_request cfg cred client refresh_token id

  unfoldable pub slack_user_token : Config → CredentialConfig → Op (Injector S) String
  unfolding or_cached or_stored_access slack_client_value secret_value by_broker by_client
  slack_user_token cfg cred = or_cached_locked o cred.id (
      or_stored_access o cfg cred (
        secret_value o cfg cred "refresh_token"
        >>= slack_refresh cfg cred (slack_client_of cfg cred)))
