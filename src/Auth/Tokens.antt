-- ===== src/Auth/Tokens.antt =====
-- internal/auth/credential.go: the cache of access tokens, and the requests to token endpoints.
use Prim.Native.String.{◌++◌}
use scia.Base.{
  String, [], ◌∷◌, Bool, not, ◌||◌, ◌==◌, Option, none, some, Result, ok, err, errorf, str, refuse,
  lookup, insert, if◌then◌else◌, ltb, ℤ,
}
use scia.Auth.Clock.{is_live, add_duration, lifetime}
use scia.Auth.Secrets.{within}
use scia.Auth.Types.{
  Fields, Cached, cached_token, cached_fields, Injector, TokenResponse, AccessBody, Outside,
}
use scia.Config.Ids.{is_set}
use scia.Go.{equal_fold}
use scia.Go.Http.{Header, header_set}
use scia.Auth.Monad.{Op, lift, return, ◌>>=◌, ◌>>◌}

-- supportedTokenType
unfoldable pub supported_token_type : String → Bool
unfolding equal_fold
supported_token_type type = type == "" || equal_fold type "bearer" || equal_fold type "user"

-- The test of clientCredentialsToken
abbrev pub bearer_or_none : String → Bool
bearer_or_none type = type == "" || equal_fold type "bearer"

-- What an answer must hold for its token to be taken.
abbrev pub check_token : (String → Bool) → AccessBody → Result (Unit {0})
check_token supported b =
    if b.access_token == ""
    then err (errorf "token endpoint response did not include access_token" [])
    else if not (supported b.token_type)
    then err (errorf "unsupported token_type %q" (str b.token_type ∷ []))
    else ok tt

abbrev pub form_header : Header
form_header = ("Content-Type", "application/x-www-form-urlencoded" ∷ []) ∷ []

abbrev pub bearer_header : String → Header → Header
bearer_header token h =
    if is_set token then header_set h "Authorization" ("Bearer " ++ token) else h

abbrev pub check_status : TokenResponse → Result (Unit {0})
check_status resp =
    refuse (ltb resp.status_code 200 || ltb 299 resp.status_code)
      (errorf "token endpoint returned %s" (str resp.status ∷ []))

module _ {S : Type 0} (o : Outside S) where
  -- i.cache.Load(id) where a token is expected; the entry of a service's fields makes the type
  -- assertion panic.
  abbrev pub use_token : Option Cached → Op (Injector S) String → Op (Injector S) String
  use_token none rest i = rest i
  use_token (some (cached_fields f)) rest i = (i, err (errorf "interface conversion" []))
  use_token (some (cached_token t)) rest i =
      if is_live (o.now i.world) t.expires_at then (i, ok t.access_token) else rest i

  -- The token of the cache, or the rest of the function.
  unfoldable pub or_cached : String → Op (Injector S) String → Op (Injector S) String
  or_cached id rest i = use_token (lookup id i.cache) rest i

  -- lock.Lock() of the id's mutex, then the rest with a second look at the cache.
  abbrev pub or_cached_locked : String → Op (Injector S) String → Op (Injector S) String
  or_cached_locked id rest = or_cached id (λ i. or_cached id rest (o.wait id i))

  -- i.cache.Store(id, cachedToken{token, time.Now().Add(d)})
  unfoldable pub store_token : String → String → ℤ → Op (Injector S) (Unit {0})
  store_token id token d i = (
    record i {
      cache =
          insert id
            (cached_token
              (record { access_token = token; expires_at = add_duration (o.now i.world) d }))
            i.cache;
    },
    ok tt,
  )

  abbrev pub take_token : (String → Bool) → String → AccessBody → Op (Injector S) String
  take_token supported id b =
      lift (check_token supported b)
      >> (store_token id b.access_token (lifetime b.expires_in) >> return b.access_token)

  -- http.NewRequestWithContext, client.Do and the check of the status
  unfoldable pub post : String → String → Header → Op (Injector S) TokenResponse
  post token_url body header = lift (o.request_url token_url) >>= λ url.
      within o (o.send (record { url = url; header = header; body = body })) >>= λ resp.
      lift (check_status resp) >> return resp

  -- decodeAndCacheToken
  unfoldable pub decode_and_cache_token : String → TokenResponse → Op (Injector S) String
  unfolding supported_token_type lifetime store_token
  decode_and_cache_token id resp =
      lift (o.decode_access resp.body) >>= take_token supported_token_type id

  -- The same with a refresh token, as formTokenWithRefresh and notionJSONToken write it out.
  unfoldable pub decode_with_refresh : String → TokenResponse → Op (Injector S) (String × String)
  unfolding supported_token_type lifetime store_token
  decode_with_refresh id resp = lift (o.decode_token resp.body) >>= λ b.
      take_token supported_token_type id b.access >>= λ token. return (token, b.refresh_token)

  -- formToken
  unfoldable pub form_token : String → String → Fields → String → Op (Injector S) String
  unfolding post decode_and_cache_token header_set
  form_token id token_url form bearer_token =
      post token_url (o.encode_form form) (bearer_header bearer_token form_header)
      >>= decode_and_cache_token id

  -- formTokenWithRefresh
  unfoldable pub form_token_with_refresh :
      String → String → Fields → String → Op (Injector S) (String × String)
  unfolding post decode_with_refresh header_set
  form_token_with_refresh id token_url form bearer_token =
      post token_url (o.encode_form form) (bearer_header bearer_token form_header)
      >>= decode_with_refresh id

  -- Request.SetBasicAuth
  abbrev pub basic_auth : String → String → Header → Header
  basic_auth user password h =
      header_set h "Authorization" ("Basic " ++ o.base64 (user ++ (":" ++ password)))

  abbrev pub json_header : String → Header
  json_header version =
      ("Accept", "application/json" ∷ [])
      ∷ ("Content-Type", "application/json" ∷ [])
      ∷ ("Notion-Version", version ∷ [])
      ∷ []

  -- notionJSONToken
  unfoldable pub notion_json_token :
      String
      → String
      → String
      → Fields
      → String
      → String
      → String
      → Op (Injector S) (String × String)
  unfolding post decode_with_refresh header_set
  notion_json_token id token_url version body client_id client_secret bearer_token =
      post token_url (o.marshal body) (
        if is_set bearer_token
        then bearer_header bearer_token (json_header version)
        else basic_auth client_id client_secret (json_header version))
      >>= decode_with_refresh id
