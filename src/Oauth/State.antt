-- ===== src/Oauth/State.antt =====
-- internal/oauth/server.go: the signed state of a login, and where the tokens of a login are stored.
use Prim.Native.String.{◌++◌}
use scia.Base.{
  suc, ◌-◌, ◌*◌, ◌/◌, String, [], ◌∷◌, Bool, false, not, ◌&&◌, ◌||◌, ◌==◌, Option, none, some, err,
  errorf, str, lookup, if◌then◌else◌, ℤ, pos, negsuc, nat_eq,
}
use scia.Auth.Clock.{second}
use scia.Auth.Monad.{Op, lift, return, ◌>>=◌}
use scia.Config.Ids.{is_set}
use scia.Config.Lookup.{credential_by_id, credential_user_id, has_user}
use scia.Config.Types.{Config, CredentialConfig, ServiceConfig, ServiceOauthConfig}
use scia.Go.{cut}
use scia.Oauth.Clients.{
  google_credential, notion_credential, todoist_credential, slack_credential, github_credential,
  google_client_secret, notion_client_secret, todoist_client_secret, slack_client_secret,
  github_client_secret, service_client_value,
}
use scia.Oauth.Types.{StateInfo, SignedStatePayload, Outside}

-- Time.Unix and time.Unix
abbrev pub unix : ℤ → ℤ
unix (pos n) = pos (n / second)
unix (negsuc n) = negsuc (n / second)

abbrev pub from_unix : ℤ → ℤ
from_unix (pos n) = pos (n * second)
from_unix (negsuc n) = negsuc (suc n * second - 1)

abbrev pub is_one : ℤ → Bool
is_one (pos n) = nat_eq n 1
is_one (negsuc n) = false

abbrev fails : {S A : Type 0} → String → Op S A
fails text = lift (err (errorf text []))

-- storageUserID
abbrev owner : Config → String → Option CredentialConfig → String
owner cfg id none = id
owner cfg id (some cred) = credential_user_id cfg cred

unfoldable pub storage_user_id : Config → StateInfo → String
unfolding credential_by_id credential_user_id
storage_user_id cfg info =
    if cfg.server.secrets.mode == "kubernetes"
    then info.user
    else owner cfg info.credential_id (credential_by_id cfg info.credential_id)

-- storageTokenKey
unfoldable pub storage_token_key : Config → String → String → String → String
unfolding has_user
storage_token_key cfg storage_id credential_id key =
    if cfg.server.secrets.mode == "kubernetes" && has_user cfg storage_id && is_set credential_id
    then credential_id ++ ("." ++ key)
    else key

-- The checks of consumeState on a payload.
abbrev pub is_for : String → SignedStatePayload → Bool
is_for provider p = not (
    not (is_one p.version)
    || not (p.provider == provider)
    || p.credential_id == ""
    || p.nonce == "")

abbrev pub info_of : SignedStatePayload → StateInfo
info_of p = record {
  user = p.user;
  credential_id = p.credential_id;
  redirect_uri = p.redirect_uri;
  created_at = some (from_unix p.created_at);
}

-- strings.Split(state, ".") where it has two parts.
abbrev second_part : String → Option (String × String) → Option (String × String)
second_part a none = some (a, "")
second_part a (some (b, c)) = none

unfoldable pub two_parts : String → Option (String × String)
unfolding cut
two_parts state = elim (cut state b'.') [
  | none ↦ none
  | some (a, b) ↦ elim (cut b b'.') [ none ↦ some (a, b) | some _ ↦ none ]
]

module _ {S : Type 0} (o : Outside S) where
  -- The client secret of a provider signs its states.
  abbrev set_secret : String → String → Op S String
  set_secret name secret =
      if secret == "" then fails (name ++ " credential is missing client_secret") else return secret

  abbrev provider_key :
      String → Option CredentialConfig → (CredentialConfig → Op S String) → Op S String
  provider_key name none secret = fails ("unknown " ++ (name ++ " credential"))
  provider_key name (some cred) secret = secret cred >>= set_secret name

  abbrev unknown_provider : String → Op S String
  unknown_provider provider = lift (err (errorf "unknown provider %q" (str provider ∷ [])))

  abbrev oauth_key : String → String → Option ServiceOauthConfig → Op S String
  oauth_key provider id none = unknown_provider provider
  oauth_key provider id (some oauth) =
      if not (oauth.credential_id == id)
      then unknown_provider provider
      else service_client_value o oauth.client_secret oauth.client_secret_ref
        >>= set_secret "service"

  abbrev service_key : String → String → Option ServiceConfig → Op S String
  service_key provider id none = unknown_provider provider
  service_key provider id (some service) = oauth_key provider id service.oauth

  -- stateSigningKey
  unfoldable pub state_signing_key : Config → String → String → Op S String
  unfolding google_credential google_client_secret notion_credential notion_client_secret
      todoist_credential todoist_client_secret slack_credential slack_client_secret
      github_credential github_client_secret service_client_value
  state_signing_key cfg provider id =
      if provider == "google"
      then provider_key "google" (google_credential cfg id) (google_client_secret o cfg)
      else if provider == "notion"
      then provider_key "notion" (notion_credential cfg id) (notion_client_secret o cfg)
      else if provider == "todoist"
      then provider_key "todoist" (todoist_credential cfg id) (todoist_client_secret o cfg)
      else if provider == "slack"
      then provider_key "slack" (slack_credential cfg id) (slack_client_secret o cfg)
      else if provider == "github"
      then provider_key "github" (github_credential cfg id) (github_client_secret o cfg)
      else service_key provider id (lookup provider cfg.server.services)

  -- signState
  unfoldable pub sign_state : String → String → String
  sign_state payload key = o.hmac payload key

  -- createState
  abbrev pub created : StateInfo → S → ℤ
  created info s = elim info.created_at [ none ↦ o.now s | some t ↦ t ]

  abbrev pub payload_of : String → StateInfo → ℤ → String → SignedStatePayload
  payload_of provider info time nonce = record {
    version = pos 1;
    provider = provider;
    user = info.user;
    credential_id = info.credential_id;
    redirect_uri = info.redirect_uri;
    created_at = unix time;
    nonce = nonce;
  }

  abbrev pub signed : SignedStatePayload → String → String
  signed payload key =
      o.encode (o.marshal payload) ++ ("." ++ o.encode (sign_state (o.marshal payload) key))

  unfoldable pub create_state : Config → String → StateInfo → Op S String
  unfolding state_signing_key sign_state
  create_state cfg provider info s =
      let time = created info s in
      (o.random_state >>= λ nonce. state_signing_key cfg provider info.credential_id >>= λ key.
      return (signed (payload_of provider info time nonce) key))
        s

  -- consumeState; `none` is an invalid state. Nothing stores into the server's map of states, where a
  -- state without two parts is looked up.
  abbrev pub if_signed : String → String → SignedStatePayload → String → Op S (Option StateInfo)
  if_signed raw sig payload key =
      return (if sig == sign_state raw key then some (info_of payload) else none)

  abbrev pub check_signature :
      Config → String → String → String → SignedStatePayload → Op S (Option StateInfo)
  check_signature cfg provider raw sig payload =
      if is_for provider payload
      then (state_signing_key cfg provider payload.credential_id >>= if_signed raw sig payload)
      else return none

  abbrev pub check_payload :
      Config → String → String → String → Option SignedStatePayload → Op S (Option StateInfo)
  check_payload cfg provider raw sig none = return none
  check_payload cfg provider raw sig (some payload) = check_signature cfg provider raw sig payload

  abbrev pub read_payload :
      Config → String → Option String → Option String → Op S (Option StateInfo)
  read_payload cfg provider none sig = return none
  read_payload cfg provider (some raw) none = return none
  read_payload cfg provider (some raw) (some sig) =
      check_payload cfg provider raw sig (o.unmarshal raw)

  abbrev pub consume_parts : Config → String → Option (String × String) → Op S (Option StateInfo)
  consume_parts cfg provider none = return none
  consume_parts cfg provider (some (payload, sig)) =
      read_payload cfg provider (o.decode payload) (o.decode sig)

  unfoldable pub consume_state : Config → String → String → Op S (Option StateInfo)
  unfolding two_parts state_signing_key sign_state
  consume_state cfg state provider =
      if state == "" then return none else consume_parts cfg provider (two_parts state)
