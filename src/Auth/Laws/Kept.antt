-- ===== src/Auth/Laws/Kept.antt =====
-- internal/auth/credential.go: the invariant of the injector's cache, and the operations that the
-- providers' are made of.
use scia.Base.{
  not-true, err-ne-ok, String, Bool, true, false, ◌==◌, Option, none, some, Result, ok, err, ◌≡◌,
  ◌≢◌, refl, sym, ◌∙◌, subst, lookup, insert, lookup-insert, if-cases, ne_of_test, ℤ,
}
use scia.Auth.Laws.{Keeps, Post, Anything, Keeps-bind, Keeps-return, Keeps-lift, Keeps-if}
use scia.Auth.Clock.{is_live}
use scia.Config.Ids.{is_set}
use scia.Auth.Secrets.{
  env, env_param, rebuild, within, or_legacy, stored_value, secret_value, rotating_secret_value,
  put_credential_secret, service_client_value,
}
use scia.Auth.Tokens.{
  supported_token_type, post, decode_and_cache_token, decode_with_refresh, form_token,
  form_token_with_refresh, notion_json_token, check_token, use_token, or_cached, or_cached_locked,
  store_token, take_token,
}
use scia.Go.Http.{Header}
use scia.Auth.Types.{
  TokenResponse, Fields, Cached, cached_token, cached_fields, Injector, AccessBody, Outside,
}
use scia.Config.Lookup.{param}
use scia.Config.Types.{Config, CredentialConfig}
use scia.Auth.Monad.{Op}

-- A cached token is not empty, and the cached fields of a service have a token.
abbrev pub HasToken : Fields → Type 0
HasToken fields = param "access_token" fields ≡ "" → param "id_token" fields ≢ ""

abbrev pub IsUsable : Cached → Type 0
IsUsable (cached_token t) = t.access_token ≢ ""
IsUsable (cached_fields f) = HasToken f.fields

abbrev pub Sound : {S : Type 0} → Injector S → Type 0
Sound i = (key : String) (c : Cached) → lookup key i.cache ≡ some c → IsUsable c

abbrev pub IsToken : String → Type 0
IsToken token = token ≢ ""

pub IsToken-of_is_set : (token : String) → is_set token ≡ true → IsToken token
IsToken-of_is_set token h = ne_of_test token "" (not-true (token == "") h)

-- The other calls keep the invariant.
abbrev pub Rely : {S : Type 0} → Outside S → Type 0
Rely {S} o = (key : String) (i : Injector S) → Sound i → Sound (o.wait key i)

pub Sound-insert :
    {S : Type 0} (i : Injector S) (key : String) (c : Cached)
    → IsUsable c
    → Sound i
    → Sound (record i { cache = insert key c i.cache })
Sound-insert i key c u h at d e =
    if-cases (λ x. x ≡ some d → IsUsable d) (key == at) (some c) (lookup at i.cache)
      (λ _ e'. subst IsUsable (some-injective e') u) (λ _ e'. h at d e')
      (sym (lookup-insert key at c i.cache) ∙ e)
  where
    some-injective : {c d : Cached} → some c ≡ some d → c ≡ d
    some-injective e = cc

module _ {S : Type 0} (o : Outside S) where
  pub rebuild-Sound :
      {A : Type 0} (i : Injector S) (x : S × Result A)
      → Sound i
      → Post Sound Anything (rebuild o i x)
  rebuild-Sound i (s, ok a) h = (h, tt)
  rebuild-Sound i (s, err e) h = h

  pub within-Sound : {A : Type 0} (m : Op S A) → Keeps Sound Anything (within o m)
  unfolding Keeps
  within-Sound m i h = rebuild-Sound i (m i.world) h

  or_legacy-Sound :
      (legacy : Bool) (user key : String) (v : Option String)
      → Keeps Sound Anything (or_legacy o legacy user key v)
  or_legacy-Sound legacy user key (some v) = Keeps-return Sound Anything _ tt
  or_legacy-Sound true user key none = within-Sound (o.store.get user key)
  or_legacy-Sound false user key none = Keeps-return Sound Anything _ tt

  stored_value-Sound :
      (cfg : Config) (cred : CredentialConfig) (key : String)
      → Keeps Sound Anything (stored_value o cfg cred key)
  unfolding stored_value
  stored_value-Sound cfg cred key =
      Keeps-bind Sound Anything Anything _ _ (within-Sound _) (λ v _. or_legacy-Sound _ _ key v)

  pub secret_value-Sound :
      (cfg : Config) (cred : CredentialConfig) (key : String)
      → Keeps Sound Anything (secret_value o cfg cred key)
  unfolding secret_value
  secret_value-Sound cfg cred key =
      Keeps-if Sound Anything (is_set (env_param o cred key)) _ _
        (λ _. Keeps-return Sound Anything _ tt)
        (λ _.
          Keeps-bind Sound Anything Anything _ _ (stored_value-Sound cfg cred key)
            (λ v _. Keeps-return Sound Anything _ tt))

  pub rotating_secret_value-Sound :
      (cfg : Config) (cred : CredentialConfig) (key : String)
      → Keeps Sound Anything (rotating_secret_value o cfg cred key)
  unfolding rotating_secret_value
  rotating_secret_value-Sound cfg cred key =
      Keeps-bind Sound Anything Anything _ _ (stored_value-Sound cfg cred key)
        (λ v _. Keeps-return Sound Anything _ tt)

  pub put_credential_secret-Sound :
      (cfg : Config) (cred : CredentialConfig) (key value : String)
      → Keeps Sound Anything (put_credential_secret o cfg cred key value)
  unfolding put_credential_secret
  put_credential_secret-Sound cfg cred key value = within-Sound _

  pub service_client_value-Sound :
      (literal secret_ref : String)
      → Keeps Sound Anything (service_client_value o literal secret_ref)
  unfolding service_client_value
  service_client_value-Sound literal secret_ref =
      Keeps-if Sound Anything (is_set (env o literal)) _ _ (λ _. Keeps-return Sound Anything _ tt)
        (λ _.
          Keeps-if Sound Anything (secret_ref == "") _ _ (λ _. Keeps-return Sound Anything _ tt)
            (λ _. within-Sound _))

  -- The cache's tokens.
  use_token-Sound :
      (c : Option Cached) (m : Op (Injector S) String)
      → ((d : Cached) → c ≡ some d → IsUsable d)
      → Keeps Sound IsToken m
      → Keeps Sound IsToken (use_token o c m)
  unfolding Keeps
  use_token-Sound none m u h = h
  use_token-Sound (some (cached_fields f)) m u h = λ i p. p
  use_token-Sound (some (cached_token t)) m u h = λ i p.
      if-cases (Post (Sound {S = S}) IsToken) (is_live (o.now i.world) t.expires_at)
        (i, ok t.access_token) (m i) (λ _. (p, u (cached_token t) refl)) (λ _. h i p)

  pub or_cached-Sound :
      (id : String) (m : Op (Injector S) String)
      → Keeps Sound IsToken m
      → Keeps Sound IsToken (or_cached o id m)
  unfolding Keeps or_cached
  or_cached-Sound id m h i p = use_token-Sound (lookup id i.cache) m (p id) h i p

  pub or_cached_locked-Sound :
      Rely o
      → (id : String) (m : Op (Injector S) String) → Keeps Sound IsToken m
      → Keeps Sound IsToken (or_cached_locked o id m)
  unfolding Keeps
  or_cached_locked-Sound rely id m h =
      or_cached-Sound id _ (λ i p. or_cached-Sound id m h (o.wait id i) (rely id i p))

  pub store_token-Sound :
      (id token : String) (d : ℤ) → IsToken token → Keeps Sound Anything (store_token o id token d)
  unfolding Keeps store_token
  store_token-Sound id token d u i p = (Sound-insert i id _ u p, tt)

  check_token-IsToken :
      (supported : String → Bool) (b : AccessBody)
      → check_token supported b ≡ ok tt
      → IsToken b.access_token
  check_token-IsToken supported b e =
      if-cases (λ r. r ≡ ok tt → IsToken b.access_token) (b.access_token == "") _ _
        (λ _ e'. absurd (err-ne-ok _ e')) (λ f _. ne_of_test b.access_token "" f) e

  pub take_token-Sound :
      (supported : String → Bool) (id : String) (b : AccessBody)
      → Keeps Sound IsToken (take_token o supported id b)
  take_token-Sound supported id b =
      Keeps-bind Sound (λ _. IsToken b.access_token) IsToken _ _
        (Keeps-lift Sound (λ _. IsToken b.access_token) (check_token supported b)
          (λ _ e. check_token-IsToken supported b e))
        (λ _ u.
          Keeps-bind Sound Anything IsToken _ _ (store_token-Sound id b.access_token _ u)
            (λ _ _. Keeps-return Sound IsToken _ u))

  pub post-Sound :
      (token_url body : String) (header : Header)
      → Keeps Sound Anything (post o token_url body header)
  unfolding post
  post-Sound token_url body header =
      Keeps-bind Sound Anything Anything _ _ (Keeps-lift Sound Anything _ (λ _ _. tt)) (λ _ _.
        Keeps-bind Sound Anything Anything _ _ (within-Sound _) (λ _ _.
          Keeps-bind Sound Anything Anything _ _ (Keeps-lift Sound Anything _ (λ _ _. tt))
            (λ _ _. Keeps-return Sound Anything _ tt)))

  pub decode_and_cache_token-Sound :
      (id : String) (resp : TokenResponse) → Keeps Sound IsToken (decode_and_cache_token o id resp)
  unfolding decode_and_cache_token
  decode_and_cache_token-Sound id resp =
      Keeps-bind Sound Anything IsToken _ _ (Keeps-lift Sound Anything _ (λ _ _. tt))
        (λ b _. take_token-Sound supported_token_type id b)

  -- The access token of a pair with a refresh token.
  abbrev pub IsFirstToken : String × String → Type 0
  IsFirstToken (token, refresh_token) = IsToken token

  pub decode_with_refresh-Sound :
      (id : String) (resp : TokenResponse)
      → Keeps Sound IsFirstToken (decode_with_refresh o id resp)
  unfolding decode_with_refresh
  decode_with_refresh-Sound id resp =
      Keeps-bind Sound Anything IsFirstToken _ _ (Keeps-lift Sound Anything _ (λ _ _. tt)) (λ b _.
        Keeps-bind Sound IsToken IsFirstToken _ _
          (take_token-Sound supported_token_type id b.access)
          (λ _ u. Keeps-return Sound IsFirstToken _ u))

  pub form_token-Sound :
      (id token_url : String) (form : Fields) (bearer_token : String)
      → Keeps Sound IsToken (form_token o id token_url form bearer_token)
  unfolding form_token
  form_token-Sound id token_url form bearer_token =
      Keeps-bind Sound Anything IsToken _ _ (post-Sound _ _ _)
        (λ resp _. decode_and_cache_token-Sound id resp)

  pub form_token_with_refresh-Sound :
      (id token_url : String) (form : Fields) (bearer_token : String)
      → Keeps Sound IsFirstToken (form_token_with_refresh o id token_url form bearer_token)
  unfolding form_token_with_refresh
  form_token_with_refresh-Sound id token_url form bearer_token =
      Keeps-bind Sound Anything IsFirstToken _ _ (post-Sound _ _ _)
        (λ resp _. decode_with_refresh-Sound id resp)

  pub notion_json_token-Sound :
      (id token_url version : String) (body : Fields)
      (client_id client_secret bearer_token : String)
      → Keeps Sound IsFirstToken
          (notion_json_token o id token_url version body client_id client_secret bearer_token)
  unfolding notion_json_token
  notion_json_token-Sound id token_url version body client_id client_secret bearer_token =
      Keeps-bind Sound Anything IsFirstToken _ _ (post-Sound _ _ _)
        (λ resp _. decode_with_refresh-Sound id resp)
