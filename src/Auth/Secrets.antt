-- ===== src/Auth/Secrets.antt =====
-- internal/auth/credential.go: the secrets of a credential, from its parameters and from the store.
use Prim.Native.String.{◌++◌}
use scia.Base.{
  String, Bool, true, false, not, ◌&&◌, ◌==◌, Option, none, some, Result, if◌then◌else◌,
}
use scia.Auth.Types.{Injector, Outside}
use scia.Config.Env.{header_value_from_env}
use scia.Config.Ids.{is_set}
use scia.Config.Lookup.{credential_user_id, has_user, param}
use scia.Config.Types.{Config, CredentialConfig}
use scia.Go.{has_suffix, some_or}
use scia.Secrets.Ref.{resolve_ref}
use scia.Auth.Monad.{Op, return, ◌>>=◌}

-- credentialSecretKey
unfoldable pub credential_secret_key : Config → CredentialConfig → String → String → String
unfolding has_user
credential_secret_key cfg cred user_id key =
    if cfg.server.secrets.mode == "kubernetes" && has_user cfg user_id && is_set cred.id
    then cred.id ++ ("." ++ key)
    else key

-- The key that older versions stored Google's refresh token under.
abbrev pub is_legacy : CredentialConfig → String → String → Bool
is_legacy cred storage_key key =
    not (storage_key == key) && key == "refresh_token" && has_suffix cred.id ".google"

module _ {S : Type 0} (o : Outside S) where
  abbrev pub env : String → String
  env = header_value_from_env o.platform.getenv

  -- An operation of the world, which leaves the cache.
  abbrev pub rebuild : {A : Type 0} → Injector S → S × Result A → Injector S × Result A
  rebuild i (s, r) = (record i { world = s }, r)

  abbrev pub within : {A : Type 0} → Op S A → Op (Injector S) A
  within m i = rebuild i (m i.world)

  abbrev pub or_legacy : Bool → String → String → Option String → Op (Injector S) (Option String)
  or_legacy legacy user key (some value) = return (some value)
  or_legacy true user key none = within (o.store.get user key)
  or_legacy false user key none = return none

  -- What secretValue and rotatingSecretValue read from the store.
  unfoldable pub stored_value : Config → CredentialConfig → String → Op (Injector S) (Option String)
  unfolding credential_user_id credential_secret_key has_suffix
  stored_value cfg cred key =
      let user = credential_user_id cfg cred in
      let storage_key = credential_secret_key cfg cred user key in
      within (o.store.get user storage_key) >>= or_legacy (is_legacy cred storage_key key) user key

  abbrev pub env_param : CredentialConfig → String → String
  env_param cred key = env (param key cred.params)

  -- secretValue: a parameter comes first.
  unfoldable pub secret_value : Config → CredentialConfig → String → Op (Injector S) String
  unfolding stored_value header_value_from_env
  secret_value cfg cred key =
      if is_set (env_param cred key)
      then return (env_param cred key)
      else stored_value cfg cred key >>= λ value. return (some_or value "")

  -- rotatingSecretValue: the store comes first.
  unfoldable pub rotating_secret_value : Config → CredentialConfig → String → Op (Injector S) String
  unfolding stored_value header_value_from_env
  rotating_secret_value cfg cred key =
      stored_value cfg cred key >>= λ value. return (some_or value (env_param cred key))

  -- putCredentialSecret
  unfoldable pub put_credential_secret :
      Config → CredentialConfig → String → String → Op (Injector S) (Unit {0})
  unfolding credential_user_id credential_secret_key
  put_credential_secret cfg cred key value =
      let user = credential_user_id cfg cred in
      within (o.store.put user (credential_secret_key cfg cred user key) value)

  -- serviceClientValue: a client's id or secret, given as a text or as a reference.
  unfoldable pub service_client_value : String → String → Op (Injector S) String
  unfolding header_value_from_env resolve_ref
  service_client_value literal secret_ref =
      if is_set (env literal)
      then return (env literal)
      else if secret_ref == ""
      then return ""
      else within (resolve_ref o.platform.getenv o.store secret_ref)

  -- The same, by a method for each provider.
  unfoldable pub google_client_value : String → String → Op (Injector S) String
  unfolding service_client_value
  google_client_value literal secret_ref = service_client_value literal secret_ref

  unfoldable pub todoist_client_value : String → String → Op (Injector S) String
  unfolding service_client_value
  todoist_client_value literal secret_ref = service_client_value literal secret_ref

  unfoldable pub slack_client_value : String → String → Op (Injector S) String
  unfolding service_client_value
  slack_client_value literal secret_ref = service_client_value literal secret_ref

  unfoldable pub github_client_value : String → String → Op (Injector S) String
  unfolding service_client_value
  github_client_value literal secret_ref = service_client_value literal secret_ref

  unfoldable pub notion_client_value : String → String → Op (Injector S) String
  unfolding service_client_value
  notion_client_value literal secret_ref = service_client_value literal secret_ref
