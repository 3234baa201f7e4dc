-- ===== src/Auth/Generic.antt =====
-- internal/auth/credential.go: the OAuth fields of a generic service.
use scia.Base.{
  append, String, List, [], ◌∷◌, Bool, true, false, not, ◌&&◌, ◌||◌, ◌==◌, Option, none, some,
  Result, ok, err, errorf, str, refuse, lookup, insert, if◌then◌else◌, ℤ, pos,
}
use scia.Auth.Clock.{is_live, add_duration, hour, ten_years, parse_expires_in}
use scia.Auth.Providers.{failing}
use scia.Auth.Secrets.{within, secret_value, put_credential_secret, service_client_value}
use scia.Auth.Tokens.{form_header, basic_auth, supported_token_type, check_status}
use scia.Auth.Types.{
  Fields, Cached, cached_token, cached_fields, Injector, Post, TokenResponse, RawValue, raw_text,
  raw_number, raw_bool, raw_other, Outside,
}
use scia.Config.Ids.{is_set, refresh_url, resolved_refresh_grant_type, default_to}
use scia.Config.Lookup.{param, implied}
use scia.Config.Types.{
  Config, CredentialConfig, ServiceConfig, ServiceOauthConfig, TokenRequestConfig,
}
use scia.Go.Http.{Header}
use scia.Auth.Monad.{Op, lift, return, ◌>>=◌, ◌>>◌}

-- The credential that stands for a service's.
abbrev pub generic_credential : String → CredentialConfig
generic_credential id = implied id "generic-oauth"

abbrev pub json_content : Header
json_content = ("Content-Type", "application/json" ∷ []) ∷ ("Accept", "application/json" ∷ []) ∷ []

-- The parameters that are set.
unfoldable pub set_fields : Fields → Fields
set_fields [] = []
set_fields ((k, v) ∷ m) = let rest = set_fields m in if is_set v then (k, v) ∷ rest else rest

-- The body of a request: the parameters, the grant's type, and the client where it goes there.
abbrev pub with_grant : String → Fields → Fields
with_grant grant_type body = if is_set grant_type then insert "grant_type" grant_type body else body

abbrev pub with_client_id : Bool → String → String → Fields → Fields
with_client_id here id secret body =
    if here then insert "client_secret" secret (insert "client_id" id body) else body

module _ {S : Type 0} (o : Outside S) where
  -- newTokenRequest
  abbrev encoded_body : TokenRequestConfig → Fields → String
  encoded_body cfg body = if cfg.body_format == "json" then o.marshal body else o.encode_form body

  abbrev content_header : TokenRequestConfig → Header
  content_header cfg = if cfg.body_format == "json" then json_content else form_header

  abbrev auth_header : TokenRequestConfig → String → String → Header → Header
  auth_header cfg id secret h = if cfg.client_auth == "basic" then basic_auth o id secret h else h

  unfoldable pub new_token_request :
      String → TokenRequestConfig → Fields → String → String → Result Post
  new_token_request token_url cfg body id secret = elim (o.request_url token_url) [
    | err e ↦ err e
    | ok url ↦ ok (record {
      url = url;
      header = auth_header cfg id secret (content_header cfg);
      body =
          encoded_body cfg
            (with_client_id (default_to "body" cfg.client_auth == "body") id secret body);
    })
  ]

  -- The fields of a decoded answer: its texts, numbers and Booleans, as texts.
  abbrev pub text_of : RawValue → Option String
  text_of (raw_text s) = some s
  text_of (raw_number n) = some (o.format_int n)
  text_of (raw_bool true) = some "true"
  text_of (raw_bool false) = some "false"
  text_of raw_other = none

  abbrev pub add_field : String → Option String → Fields → Fields
  add_field k none m = m
  add_field k (some v) m = (k, v) ∷ m

  unfoldable pub text_fields : List (String × RawValue) → Fields
  text_fields [] = []
  text_fields ((k, v) ∷ raw) = add_field k (text_of v) (text_fields raw)

  abbrev is_raw_true : Option RawValue → Bool
  is_raw_true (some (raw_bool b)) = b
  is_raw_true (some (raw_text s)) = false
  is_raw_true (some (raw_number n)) = false
  is_raw_true (some raw_other) = false
  is_raw_true none = false

  unfoldable pub check_success : TokenRequestConfig → List (String × RawValue) → Result (Unit {0})
  check_success cfg raw =
      refuse (is_set cfg.success_field && not (is_raw_true (lookup cfg.success_field raw)))
        (errorf "token endpoint response %s was not true" (str cfg.success_field ∷ []))

  unfoldable pub check_type : Fields → Result (Unit {0})
  unfolding supported_token_type
  check_type fields =
      refuse (not (supported_token_type (param "token_type" fields)))
        (errorf "unsupported token_type %q" (str (param "token_type" fields) ∷ []))

  -- requestGenericOAuthToken
  abbrev pub read_fields : TokenRequestConfig → TokenResponse → Op (Injector S) Fields
  read_fields cfg resp = lift (o.decode_raw resp.body) >>= λ raw.
      lift (check_status resp)
      >> (lift (check_success cfg raw)
          >> (lift (check_type (text_fields raw)) >> return (text_fields raw)))

  unfoldable pub request_generic_oauth_token :
      String → TokenRequestConfig → Fields → String → String → String → Op (Injector S) Fields
  unfolding set_fields new_token_request text_fields check_success check_type
  request_generic_oauth_token token_url cfg extra id secret grant_type =
      if token_url == ""
      then lift (err (errorf "tokenUrl is required" []))
      else lift
          (new_token_request token_url cfg (with_grant grant_type (set_fields extra)) id secret)
        >>= λ req. within o (o.send req) >>= read_fields cfg

  -- The cache's entry of a service; a credential's token there makes the type assertion panic.
  abbrev pub use_fields : Option Cached → Op (Injector S) Fields → Op (Injector S) Fields
  use_fields none rest i = rest i
  use_fields (some (cached_token t)) rest i = (i, err (errorf "interface conversion" []))
  use_fields (some (cached_fields f)) rest i =
      if is_live (o.now i.world) f.expires_at then (i, ok f.fields) else rest i

  unfoldable pub or_cached_fields : String → Op (Injector S) Fields → Op (Injector S) Fields
  or_cached_fields key rest i = use_fields (lookup key i.cache) rest i

  unfoldable pub store_fields : String → Fields → ℤ → Op (Injector S) Fields
  store_fields key fields d i = (
    record i {
      cache =
          insert key
            (cached_fields
              (record { fields = fields; expires_at = add_duration (o.now i.world) d }))
            i.cache;
    },
    ok fields,
  )

  -- The first loop of genericOAuthFields: the secrets that are stored.
  abbrev pub stored_keys : List String
  stored_keys = "access_token" ∷ "id_token" ∷ "token_type" ∷ "expires_in" ∷ "refresh_token" ∷ []

  unfoldable pub stored_fields : Config → CredentialConfig → List String → Op (Injector S) Fields
  unfolding secret_value
  stored_fields cfg cred [] = return []
  stored_fields cfg cred (key ∷ keys) = secret_value o cfg cred key >>= λ value.
      stored_fields cfg cred keys >>= λ rest.
      return (if is_set value then (key, value) ∷ rest else rest)

  -- Its second loop: the fields of the answer replace the stored ones, and a new refresh token is
  -- stored.
  abbrev pub keep_refresh : Config → CredentialConfig → String → String → Op (Injector S) (Unit {0})
  keep_refresh cfg cred key value =
      if key == "refresh_token" && is_set value
      then put_credential_secret o cfg cred key value
      else return tt

  unfoldable pub merge_fields : Config → CredentialConfig → Fields → Fields → Op (Injector S) Fields
  unfolding put_credential_secret
  merge_fields cfg cred fields [] = return fields
  merge_fields cfg cred fields ((key, value) ∷ refreshed) =
      keep_refresh cfg cred key value >> merge_fields cfg cred (insert key value fields) refreshed

  abbrev pub fields_lifetime : Fields → ℤ
  fields_lifetime fields = elim (parse_expires_in o.parse_int (param "expires_in" fields)) [
    | none ↦ pos hour
    | some d ↦ d
  ]

  abbrev pub finish : String → Fields → Op (Injector S) Fields
  finish key fields =
      if param "access_token" fields == "" && param "id_token" fields == ""
      then lift (err (errorf "token endpoint response did not include access_token or id_token" []))
      else store_fields key fields (fields_lifetime fields)

  abbrev pub refresh_fields :
      Config → ServiceOauthConfig → Fields → String → String → Op (Injector S) Fields
  refresh_fields cfg oauth fields id secret =
      if id == "" || secret == ""
      then failing o "service credential %q requires client_id and client_secret"
          oauth.credential_id
      else request_generic_oauth_token (refresh_url oauth.token_request oauth.token_url)
          oauth.token_request (("refresh_token", param "refresh_token" fields) ∷ []) id secret
          (resolved_refresh_grant_type oauth.token_request)
        >>= merge_fields cfg (generic_credential oauth.credential_id) fields

  abbrev pub use_stored : Config → ServiceOauthConfig → String → Fields → Op (Injector S) Fields
  use_stored cfg oauth key fields =
      if is_set (param "access_token" fields) && param "refresh_token" fields == ""
      then store_fields key fields ten_years
      else if param "refresh_token" fields == ""
      then failing o "service credential %q requires refresh_token or access_token"
          oauth.credential_id
      else service_client_value o oauth.client_id oauth.client_id_secret_ref >>= λ id.
          service_client_value o oauth.client_secret oauth.client_secret_ref >>= λ secret.
          refresh_fields cfg oauth fields id secret >>= finish key

  abbrev pub service_fields : Config → ServiceOauthConfig → String → Op (Injector S) Fields
  service_fields cfg oauth key = or_cached_fields key (λ i.
      or_cached_fields key
        (stored_fields cfg (generic_credential oauth.credential_id) stored_keys
          >>= use_stored cfg oauth key)
        (o.wait key i))

  -- genericOAuthFields
  unfoldable pub generic_oauth_fields : Config → ServiceConfig → Op (Injector S) Fields
  unfolding or_cached_fields stored_fields service_client_value request_generic_oauth_token
      merge_fields parse_expires_in store_fields
  generic_oauth_fields cfg service = elim service.oauth [
    | none ↦ return []
    | some oauth ↦ service_fields cfg oauth (append "service:" oauth.credential_id)
  ]
