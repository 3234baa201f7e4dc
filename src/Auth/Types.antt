-- ===== src/Auth/Types.antt =====
-- internal/auth/credential.go: the injector's state, and what it takes from outside. The world behind
-- the secret store, the clock and the network is a type S of the model's user.
use scia.Base.{ℕ, String, List, Bool, Option, Result, ℤ}
use scia.Config.Platform.{Platform}
use scia.Go.Http.{Header, Url}
use scia.Secrets.Store.{Op, Store}
use scia.Serviceinfo.Index.{Json}
use scia.Serviceinfo.Fetch.{MetadataClient}

-- A map from texts to texts.
abbrev pub Fields : Type 0
Fields = List (String × String)

-- cachedToken and cachedFields; a time is a number of nanoseconds.
pub record CachedToken : Type 0 where
  pub access_token : String
  pub expires_at : ℤ

pub record CachedFields : Type 0 where
  pub fields : Fields
  pub expires_at : ℤ

pub data Cached : Type 0 where
  cached_token : CachedToken → Cached
  cached_fields : CachedFields → Cached

-- Injector: its cache, and the world that its client and its secret store act on.
pub record Injector (S : Type 0) : Type 0 where
  pub world : S
  pub cache : List (String × Cached)

-- A POST to a token endpoint, and its answer: resp.StatusCode, resp.Status and the body.
pub record Post : Type 0 where
  pub url : Url
  pub header : Header
  pub body : String

pub record TokenResponse : Type 0 where
  pub status_code : ℕ
  pub status : String
  pub body : String

-- The structs that the token endpoint's answers are decoded into, without and with a refresh token.
pub record AccessBody : Type 0 where
  pub access_token : String
  pub token_type : String
  pub expires_in : ℤ

pub record TokenBody : Type 0 where
  pub access : AccessBody
  pub refresh_token : String

-- A value of a decoded `map[string]any`; of a number, what `int64(v)` is.
pub data RawValue : Type 0 where
  raw_text : String → RawValue
  raw_number : ℤ → RawValue
  raw_bool : Bool → RawValue
  raw_other : RawValue

-- What is outside of the injector's code: the environment and url.Parse (platform), the secret store,
-- the clock, http.NewRequestWithContext's reading of its URL, http.Client.Do, the encodings, and
-- text/template with its function `secret`. `wait` is what other calls of the injector do while this
-- one waits for the mutex of a key.
pub record Outside (S : Type 0) : Type 0 where
  pub platform : Platform
  pub json : Json
  pub store : Store S
  pub now : S → ℕ
  pub wait : String → Injector S → Injector S
  pub request_url : String → Result Url
  pub send : Post → Op S TokenResponse
  pub metadata : MetadataClient S
  pub base64 : String → String
  pub encode_form : Fields → String
  pub marshal : Fields → String
  pub decode_access : String → Result AccessBody
  pub decode_token : String → Result TokenBody
  pub decode_raw : String → Result (List (String × RawValue))
  pub format_int : ℤ → String
  pub parse_int : String → Option ℤ
  pub parse_query : String → Header
  pub encode_query : Header → String
  pub execute : String → Fields → (String → Op (Injector S) String) → Op (Injector S) String
