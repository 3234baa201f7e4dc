-- ===== src/Auth/Providers.antt =====
-- internal/auth/credential.go: what the access tokens of the providers have in common.
pub mod Grants
pub mod Notion
pub mod Todoist
pub mod Slack
pub mod Github
use scia.Base.{String, [], ◌∷◌, ◌==◌, ◌||◌, Option, none, some, err, errorf, str, if◌then◌else◌}
use scia.Auth.Clock.{ten_years}
use scia.Auth.Secrets.{env_param, secret_value, put_credential_secret}
use scia.Auth.Tokens.{store_token, form_token_with_refresh}
use scia.Auth.Types.{Fields, Injector, Outside}
use scia.Config.Ids.{is_set, default_to}
use scia.Config.Lookup.{param}
use scia.Config.Types.{Config, CredentialConfig}
use scia.Auth.Monad.{Op, lift, return, ◌>>=◌, ◌>>◌}

-- The parts of a provider's OAuth client that the injector uses.
pub record Client : Type 0 where
  pub id : String
  pub id_ref : String
  pub secret : String
  pub secret_ref : String
  pub token_url : String

abbrev pub url_of : Option Client → String
url_of none = ""
url_of (some c) = c.token_url

-- The token endpoint: a parameter of the credential, the provider's, or a default.
abbrev pub endpoint : CredentialConfig → String → Option Client → String → String
endpoint cred key client default_url =
    default_to default_url (default_to (url_of client) (param key cred.params))

-- The form of a refresh.
abbrev pub broker_form : CredentialConfig → String → Fields
broker_form cred refresh_token =
    ("grant_type", "refresh_token")
    ∷ ("refresh_token", refresh_token)
    ∷ (if is_set (param "scope" cred.params) then ("scope", param "scope" cred.params) ∷ [] else [])

abbrev pub client_form : String → String → String → Fields
client_form client_id client_secret refresh_token =
    ("grant_type", "refresh_token")
    ∷ ("client_id", client_id)
    ∷ ("client_secret", client_secret)
    ∷ ("refresh_token", refresh_token)
    ∷ []

module _ {S : Type 0} (o : Outside S) where
  abbrev pub failing : {A : Type 0} → String → String → Op (Injector S) A
  failing format id = lift (err (errorf format (str id ∷ [])))

  -- The client's id and secret: parameters of the credential, or the provider's by its
  -- `client_value`.
  abbrev pub client_id :
      (String → String → Op (Injector S) String)
      → CredentialConfig
      → Option Client
      → Op (Injector S) String
  client_id client_value cred none = return (env_param o cred "client_id")
  client_id client_value cred (some c) =
      if is_set (env_param o cred "client_id")
      then return (env_param o cred "client_id")
      else client_value c.id c.id_ref

  abbrev pub client_secret :
      (String → String → Op (Injector S) String)
      → CredentialConfig
      → Option Client
      → Op (Injector S) String
  client_secret client_value cred none = return (env_param o cred "client_secret")
  client_secret client_value cred (some c) =
      if is_set (env_param o cred "client_secret")
      then return (env_param o cred "client_secret")
      else client_value c.secret c.secret_ref

  -- A refresh token that has been replaced is stored before the access token is returned.
  unfoldable pub rotate : Config → CredentialConfig → String × String → Op (Injector S) String
  unfolding put_credential_secret
  rotate cfg cred (token, refresh_token) =
      if is_set refresh_token
      then put_credential_secret o cfg cred "refresh_token" refresh_token >> return token
      else return token

  -- An access token of the store is taken for ten years.
  unfoldable pub or_stored_access :
      Config → CredentialConfig → Op (Injector S) String → Op (Injector S) String
  unfolding secret_value store_token
  or_stored_access cfg cred rest = secret_value o cfg cred "access_token" >>= λ token.
      if is_set token then store_token o cred.id token ten_years >> return token else rest

  -- A refresh by the broker, and one by the provider itself.
  unfoldable pub by_broker : Config → CredentialConfig → String → String → Op (Injector S) String
  unfolding form_token_with_refresh rotate
  by_broker cfg cred broker_url refresh_token =
      form_token_with_refresh o cred.id broker_url (broker_form cred refresh_token)
        (env_param o cred "token_broker_token")
      >>= rotate cfg cred

  unfoldable pub by_client :
      Config → CredentialConfig → String → String → String → String → Op (Injector S) String
  unfolding form_token_with_refresh rotate
  by_client cfg cred token_url id secret refresh_token =
      form_token_with_refresh o cred.id token_url (client_form id secret refresh_token) ""
      >>= rotate cfg cred

abbrev pub no_refresh_token : String
no_refresh_token = "credential %q requires refresh_token"

abbrev pub no_token : String
no_token = "credential %q requires refresh_token or access_token"

abbrev pub no_client : String
no_client = "credential %q requires client_id, client_secret, and refresh_token"

abbrev pub no_client_or_token : String
no_client_or_token =
    "credential %q requires client_id, client_secret, and refresh_token, or access_token"
