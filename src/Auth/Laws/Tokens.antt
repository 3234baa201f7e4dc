-- ===== src/Auth/Laws/Tokens.antt =====
-- internal/auth/credential.go: the providers' operations keep the invariant of the cache.
use scia.Base.{String, Bool, ◌||◌, ◌==◌, Option, none, some}
use scia.Auth.Laws.{Keeps, Keeps-lift, Anything, Keeps-bind, Keeps-return, Keeps-fail, Keeps-if}
use scia.Auth.Clock.{ten_years}
use scia.Auth.Laws.Kept.{
  IsToken-of_is_set, Sound, IsToken, IsFirstToken, secret_value-Sound, put_credential_secret-Sound,
  service_client_value-Sound, or_cached-Sound, store_token-Sound, take_token-Sound, post-Sound,
  form_token-Sound, form_token_with_refresh-Sound,
}
use scia.Auth.Monad.{Op}
use scia.Auth.Providers.{
  Client, client_id, client_secret, or_stored_access, rotate, by_broker, by_client, failing,
  client_form, broker_form, endpoint,
}
use scia.Auth.Providers.Grants.{
  client_credentials_token, google_client_of, google_request, google_refresh_token,
}
use scia.Auth.Secrets.{env_param, google_client_value}
use scia.Auth.Types.{Injector, Outside}
use scia.Auth.Tokens.{bearer_or_none}
use scia.Config.Lookup.{param}
use scia.Config.Ids.{is_set}
use scia.Config.Types.{Config, CredentialConfig}

module _ {S : Type 0} (o : Outside S) where
  pub failing-Sound :
      {A : Type 0} (Q : A → Type 0) (format id : String) → Keeps Sound Q (failing o format id)
  failing-Sound Q format id = Keeps-fail Sound Q _

  -- A client's values.
  abbrev pub KeepsAll : (String → String → Op (Injector S) String) → Type 0
  KeepsAll client_value =
      (literal secret_ref : String) → Keeps Sound Anything (client_value literal secret_ref)

  pub client_id-Sound :
      (client_value : String → String → Op (Injector S) String) (cred : CredentialConfig)
      (client : Option Client)
      → KeepsAll client_value
      → Keeps Sound Anything (client_id o client_value cred client)
  client_id-Sound client_value cred none h = Keeps-return Sound Anything _ tt
  client_id-Sound client_value cred (some c) h =
      Keeps-if Sound Anything (is_set (env_param o cred "client_id")) _ _
        (λ _. Keeps-return Sound Anything _ tt) (λ _. h c.id c.id_ref)

  pub client_secret-Sound :
      (client_value : String → String → Op (Injector S) String) (cred : CredentialConfig)
      (client : Option Client)
      → KeepsAll client_value
      → Keeps Sound Anything (client_secret o client_value cred client)
  client_secret-Sound client_value cred none h = Keeps-return Sound Anything _ tt
  client_secret-Sound client_value cred (some c) h =
      Keeps-if Sound Anything (is_set (env_param o cred "client_secret")) _ _
        (λ _. Keeps-return Sound Anything _ tt) (λ _. h c.secret c.secret_ref)

  pub rotate-Sound :
      (cfg : Config) (cred : CredentialConfig) (pair : String × String)
      → IsFirstToken o pair
      → Keeps Sound IsToken (rotate o cfg cred pair)
  unfolding rotate
  rotate-Sound cfg cred (token, refresh_token) u =
      Keeps-if Sound IsToken (is_set refresh_token) _ _
        (λ _.
          Keeps-bind Sound Anything IsToken _ _
            (put_credential_secret-Sound o cfg cred "refresh_token" refresh_token)
            (λ _ _. Keeps-return Sound IsToken token u))
        (λ _. Keeps-return Sound IsToken token u)

  pub or_stored_access-Sound :
      (cfg : Config) (cred : CredentialConfig) (m : Op (Injector S) String)
      → Keeps Sound IsToken m
      → Keeps Sound IsToken (or_stored_access o cfg cred m)
  unfolding or_stored_access
  or_stored_access-Sound cfg cred m h =
      Keeps-bind Sound Anything IsToken _ _ (secret_value-Sound o cfg cred "access_token")
        (λ token _.
          Keeps-if Sound IsToken (is_set token) _ _
            (λ u.
              Keeps-bind Sound Anything IsToken _ _
                (store_token-Sound o cred.id token ten_years (IsToken-of_is_set token u))
                (λ _ _. Keeps-return Sound IsToken token (IsToken-of_is_set token u)))
            (λ _. h))

  pub by_broker-Sound :
      (cfg : Config) (cred : CredentialConfig) (broker_url refresh_token : String)
      → Keeps Sound IsToken (by_broker o cfg cred broker_url refresh_token)
  unfolding by_broker
  by_broker-Sound cfg cred broker_url refresh_token =
      Keeps-bind Sound (IsFirstToken o) IsToken _ _ (form_token_with_refresh-Sound o _ _ _ _)
        (λ pair u. rotate-Sound cfg cred pair u)

  pub by_client-Sound :
      (cfg : Config) (cred : CredentialConfig) (token_url id secret refresh_token : String)
      → Keeps Sound IsToken (by_client o cfg cred token_url id secret refresh_token)
  unfolding by_client
  by_client-Sound cfg cred token_url id secret refresh_token =
      Keeps-bind Sound (IsFirstToken o) IsToken _ _
        (form_token_with_refresh-Sound o cred.id token_url (client_form id secret refresh_token) "")
        (λ pair u. rotate-Sound cfg cred pair u)

  -- The access tokens of the providers: the invariant of the cache is kept, and a token that is
  -- returned is not empty.
  pub client_credentials_token-Sound :
      (cred : CredentialConfig) → Keeps Sound IsToken (client_credentials_token o cred)
  unfolding client_credentials_token
  client_credentials_token-Sound cred = or_cached-Sound o cred.id _ (
      Keeps-if Sound IsToken (no_endpoint cred) _ _ (λ _. failing-Sound IsToken _ _)
        (λ _. Keeps-bind Sound Anything IsToken _ _ (post-Sound o _ _ _) (λ resp _.
          Keeps-bind Sound Anything IsToken _ _ (Keeps-lift Sound Anything _ (λ _ _. tt))
            (λ b _. take_token-Sound o bearer_or_none cred.id b))))
    where
      no_endpoint : CredentialConfig → Bool
      no_endpoint cred =
          param "token_url" cred.params == ""
          || env_param o cred "client_id" == ""
          || env_param o cred "client_secret" == ""

  google_client_value-Sound : KeepsAll (google_client_value o)
  unfolding google_client_value
  google_client_value-Sound = service_client_value-Sound o

  google_request-Sound :
      (cred : CredentialConfig) (client : Option Client) (id secret refresh_token : String)
      → Keeps Sound IsToken (google_request o cred client id secret refresh_token)
  google_request-Sound cred client id secret refresh_token =
      Keeps-if Sound IsToken (is_set (env_param o cred "token_broker_url")) _ _
        (λ _.
          Keeps-if Sound IsToken (refresh_token == "") _ _ (λ _. failing-Sound IsToken _ _)
            (λ _.
              form_token-Sound o cred.id (env_param o cred "token_broker_url")
                (broker_form cred refresh_token) (env_param o cred "token_broker_token")))
        (λ _.
          Keeps-if Sound IsToken (id == "" || secret == "" || refresh_token == "") _ _
            (λ _. failing-Sound IsToken _ _)
            (λ _.
              form_token-Sound o cred.id
                (endpoint cred "token_url" client "https://oauth2.googleapis.com/token")
                (client_form id secret refresh_token) ""))

  pub google_refresh_token-Sound :
      (cfg : Config) (cred : CredentialConfig)
      → Keeps Sound IsToken (google_refresh_token o cfg cred)
  unfolding google_refresh_token
  google_refresh_token-Sound cfg cred = or_cached-Sound o cred.id _ (
      Keeps-bind Sound Anything IsToken _ _
        (client_id-Sound (google_client_value o) cred (google_client_of cfg cred)
          google_client_value-Sound)
        (λ id _.
          Keeps-bind Sound Anything IsToken _ _
            (client_secret-Sound (google_client_value o) cred (google_client_of cfg cred)
              google_client_value-Sound)
            (λ secret _.
              Keeps-bind Sound Anything IsToken _ _ (secret_value-Sound o cfg cred "refresh_token")
                (λ refresh_token _.
                  google_request-Sound cred (google_client_of cfg cred) id secret refresh_token))))
