-- ===== src/Oauth/Users.antt =====
-- internal/oauth/server.go: users that have no entry in the configuration choose a token at their first
-- request, and have to bring it from then on. A request's read and write of the token are taken as one
-- step; the server holds no lock between them.
use scia.Base.{ℕ, String, not, ◌==◌, Option, none, some, Result, ok, err, if◌then◌else◌}
use scia.Config.Ids.{is_set}
use scia.Config.Lookup.{has_user, has_dynamic_user}
use scia.Config.Types.{Config}
use scia.Go.{trim_space}
use scia.Go.Http.{Header, header_get}
use scia.Oauth.Types.{Outside}

abbrev pub dynamic_user_token_secret_key : String
dynamic_user_token_secret_key = "_scia_user_token"

-- The parts of a request that are read here: its header and the values of its form and its query.
pub record UserRequest : Type 0 where
  pub header : Header
  pub form : String → String
  pub query : String → String

-- Whether the handler goes on, or the status and the text that it answered.
pub data Verdict : Type 0 where
  granted : Verdict
  refused : ℕ → String → Verdict

-- dynamicUserTokenFromRequest
unfoldable pub dynamic_user_token_from_request : UserRequest → String
unfolding trim_space header_get
dynamic_user_token_from_request r =
    let token = trim_space (header_get r.header "X-Scia-User-Token") in
    if is_set token then token else trim_space (r.query "user_token")

module _ {S : Type 0} (o : Outside S) where
  abbrev pub put_token : S × Result (Unit {0}) → S × Verdict
  put_token (s, ok done) = (s, granted)
  put_token (s, err e) = (s, refused 500 "failed to authorize dynamic user")

  abbrev pub match_token : String → String → S × Result (Option String) → S × Verdict
  match_token user token (s, err e) = (s, refused 500 "failed to authorize dynamic user")
  match_token user token (s, ok none) =
      put_token (o.store.put user dynamic_user_token_secret_key token s)
  match_token user token (s, ok (some stored)) =
      if not (token == stored) then (s, refused 401 "invalid dynamic user token") else (s, granted)

  -- authorizeDynamicUserRequest
  unfoldable pub authorize_dynamic_user_request : UserRequest → Config → String → S → S × Verdict
  unfolding has_dynamic_user dynamic_user_token_from_request
  authorize_dynamic_user_request r cfg user s =
      let token = dynamic_user_token_from_request r in
      if not (has_dynamic_user cfg user)
      then (s, granted)
      else if token == ""
      then (s, refused 401 "dynamic user token is required")
      else match_token user token (o.store.get user dynamic_user_token_secret_key s)

  -- authorizeOptionalBrokerUser
  abbrev broker_user : UserRequest → String
  broker_user r =
      let user = trim_space (r.form "user") in
      if user == "" then trim_space (r.query "user") else user

  unfoldable pub authorize_optional_broker_user : UserRequest → Config → S → S × Verdict
  unfolding has_user trim_space authorize_dynamic_user_request
  authorize_optional_broker_user r cfg s =
      let user = broker_user r in
      if user == ""
      then (s, granted)
      else if not (has_user cfg user)
      then (s, refused 400 "unknown user")
      else authorize_dynamic_user_request r cfg user s
