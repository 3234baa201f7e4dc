-- ===== src/Auth/Providers/Notion.antt =====
-- internal/auth/credential.go: notionRefreshToken, which returns the API's version with the token.
use mathlib.Core.Option
use scia.Base.{String, [], ◌∷◌, ◌==◌, ◌||◌, Option, none, some, if◌then◌else◌}
use scia.Auth.Providers.{
  Client, endpoint, failing, client_id, client_secret, rotate, no_refresh_token, no_client,
}
use scia.Auth.Secrets.{env_param, rotating_secret_value, notion_client_value}
use scia.Auth.Tokens.{or_cached, notion_json_token}
use scia.Auth.Types.{Fields, Injector, Outside}
use scia.Config.Ids.{is_set, default_to}
use scia.Config.Lookup.{param, notion_oauth_config_for_credential}
use scia.Config.Types.{Config, CredentialConfig, NotionOauthConfig}
use scia.Auth.Monad.{Op, return, ◌>>=◌}

abbrev pub notion_client : NotionOauthConfig → Client
notion_client n = record {
  id = n.client_id;
  id_ref = n.client_id_secret_ref;
  secret = n.client_secret;
  secret_ref = n.client_secret_ref;
  token_url = n.token_url;
}

-- notionVersion
abbrev version_of : Option NotionOauthConfig → String
version_of none = ""
version_of (some n) = n.notion_version

unfoldable pub notion_version : Config → CredentialConfig → String
unfolding notion_oauth_config_for_credential
notion_version cfg cred =
    default_to
      (default_to "2026-03-11" (version_of (notion_oauth_config_for_credential cfg cred.id)))
      (param "notion_version" cred.params)

abbrev pub notion_body : String → Fields
notion_body refresh_token = ("grant_type", "refresh_token") ∷ ("refresh_token", refresh_token) ∷ []

abbrev pub notion_client_of : Config → CredentialConfig → Option Client
notion_client_of cfg cred =
    Option.map notion_client (notion_oauth_config_for_credential cfg cred.id)

module _ {S : Type 0} (o : Outside S) where
  abbrev pub notion_request :
      Config → CredentialConfig → Option Client → String → String → String → Op (Injector S) String
  notion_request cfg cred client refresh_token id secret =
      if id == "" || secret == ""
      then failing o no_client cred.id
      else notion_json_token o cred.id
          (endpoint cred "token_url" client "https://api.notion.com/v1/oauth/token")
          (notion_version cfg cred) (notion_body refresh_token) id secret ""
        >>= rotate o cfg cred

  abbrev pub notion_refresh :
      Config → CredentialConfig → Option Client → String → Op (Injector S) String
  notion_refresh cfg cred client refresh_token =
      if refresh_token == ""
      then failing o no_refresh_token cred.id
      else if is_set (env_param o cred "token_broker_url")
      then (notion_json_token o cred.id (env_param o cred "token_broker_url")
            (notion_version cfg cred) (notion_body refresh_token) "" ""
            (env_param o cred "token_broker_token")
          >>= rotate o cfg cred)
      else client_id o (notion_client_value o) cred client >>= λ id.
          client_secret o (notion_client_value o) cred client
          >>= notion_request cfg cred client refresh_token id

  unfoldable pub notion_refresh_token :
      Config → CredentialConfig → Op (Injector S) (String × String)
  unfolding or_cached rotating_secret_value notion_client_value notion_json_token rotate
      notion_version
  notion_refresh_token cfg cred =
      or_cached o cred.id (
        rotating_secret_value o cfg cred "refresh_token"
        >>= notion_refresh cfg cred (notion_client_of cfg cred))
      >>= λ token. return (token, notion_version cfg cred)
