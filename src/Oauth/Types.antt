-- ===== src/Oauth/Types.antt =====
-- internal/oauth/server.go: the state that travels through a provider's login page, the handlers'
-- answers, and what the server takes from outside.
use scia.Base.{String, Option, ℤ}
use scia.Auth.Monad.{Op}
use scia.Config.Platform.{Platform}
use scia.Secrets.Store.{Store}

-- stateInfo; a time is a number of nanoseconds, and `none` the zero time.
pub record StateInfo : Type 0 where
  pub user : String
  pub credential_id : String
  pub redirect_uri : String
  pub created_at : Option ℤ

-- signedStatePayload
pub record SignedStatePayload : Type 0 where
  pub version : ℤ
  pub provider : String
  pub user : String
  pub credential_id : String
  pub redirect_uri : String
  pub created_at : ℤ
  pub nonce : String

-- The environment and url.Parse (platform), the secret store, the clock, the random text of a nonce,
-- encoding/json of the payload, base64.RawURLEncoding, and HMAC with SHA-256.
pub record Outside (S : Type 0) : Type 0 where
  pub platform : Platform
  pub store : Store S
  pub now : S → ℤ
  pub random_state : Op S String
  pub marshal : SignedStatePayload → String
  pub unmarshal : String → Option SignedStatePayload
  pub encode : String → String
  pub decode : String → Option String
  pub hmac : String → String → String
