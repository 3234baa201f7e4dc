-- ===== src/Auth/Providers/Grants.antt =====
-- internal/auth/credential.go: the grants that keep no refresh token, client credentials and Google's.
use scia.Base.{String, [], ◌∷◌, ◌==◌, ◌||◌, Option, if◌then◌else◌}
use mathlib.Core.Option
use scia.Auth.Providers.{
  Client, endpoint, broker_form, client_form, failing, client_id, client_secret, no_client,
  no_refresh_token,
}
use scia.Auth.Secrets.{env_param, secret_value, google_client_value}
use scia.Auth.Tokens.{
  or_cached, post, basic_auth, form_header, take_token, bearer_or_none, form_token,
}
use scia.Auth.Types.{Fields, Injector, Outside}
use scia.Config.Ids.{is_set}
use scia.Config.Lookup.{param, google_oauth_config_for_credential}
use scia.Config.Types.{Config, CredentialConfig, GoogleOauthConfig}
use scia.Auth.Monad.{Op, lift, ◌>>=◌}

abbrev pub client_credentials_form : CredentialConfig → Fields
client_credentials_form cred =
    ("grant_type", "client_credentials")
    ∷ (if is_set (param "scope" cred.params) then ("scope", param "scope" cred.params) ∷ [] else [])

abbrev pub google_client : GoogleOauthConfig → Client
google_client g = record {
  id = g.client_id;
  id_ref = g.client_id_secret_ref;
  secret = g.client_secret;
  secret_ref = g.client_secret_ref;
  token_url = g.token_url;
}

abbrev pub google_client_of : Config → CredentialConfig → Option Client
google_client_of cfg cred =
    Option.map google_client (google_oauth_config_for_credential cfg cred.id)

module _ {S : Type 0} (o : Outside S) where
  -- clientCredentialsToken
  abbrev pub client_credentials_request :
      CredentialConfig → String → String → String → Op (Injector S) String
  client_credentials_request cred token_url id secret =
      if token_url == "" || id == "" || secret == ""
      then failing o "credential %q requires token_url, client_id, and client_secret" cred.id
      else post o token_url (o.encode_form (client_credentials_form cred))
          (basic_auth o id secret form_header)
        >>= λ resp. lift (o.decode_access resp.body) >>= take_token o bearer_or_none cred.id

  unfoldable pub client_credentials_token : CredentialConfig → Op (Injector S) String
  unfolding or_cached post
  client_credentials_token cred = or_cached o cred.id (
      client_credentials_request cred (param "token_url" cred.params) (env_param o cred "client_id")
        (env_param o cred "client_secret"))

  -- googleRefreshToken
  abbrev pub google_request :
      CredentialConfig → Option Client → String → String → String → Op (Injector S) String
  google_request cred client id secret refresh_token =
      if is_set (env_param o cred "token_broker_url")
      then (if refresh_token == ""
          then failing o no_refresh_token cred.id
          else form_token o cred.id (env_param o cred "token_broker_url")
              (broker_form cred refresh_token) (env_param o cred "token_broker_token"))
      else if id == "" || secret == "" || refresh_token == ""
      then failing o no_client cred.id
      else form_token o cred.id
          (endpoint cred "token_url" client "https://oauth2.googleapis.com/token")
          (client_form id secret refresh_token) ""

  abbrev pub google_uncached : Config → CredentialConfig → Option Client → Op (Injector S) String
  google_uncached cfg cred client = client_id o (google_client_value o) cred client >>= λ id.
      client_secret o (google_client_value o) cred client >>= λ secret.
      secret_value o cfg cred "refresh_token" >>= google_request cred client id secret

  unfoldable pub google_refresh_token : Config → CredentialConfig → Op (Injector S) String
  unfolding or_cached google_client_value secret_value form_token
  google_refresh_token cfg cred =
      or_cached o cred.id (google_uncached cfg cred (google_client_of cfg cred))
