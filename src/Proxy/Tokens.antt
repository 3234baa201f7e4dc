-- ===== src/Proxy/Tokens.antt =====
-- internal/proxy/server.go: the admin interface stores a token. encoding/json has decoded the body.
use scia.Base.{
  ℕ, String, List, [], ◌∷◌, ◌&&◌, ◌||◌, ◌==◌, Option, none, some, Result, Error, ok, err, errorf,
  str, if◌then◌else◌,
}
use scia.Config.Ids.{is_set}
use scia.Config.Inputs.{parameter_service}
use scia.Config.Lookup.{has_user, service_by_id}
use scia.Config.Platform.{Platform}
use scia.Config.Types.{Config, ServiceConfig, ServiceInputConfig, ServiceOauthConfig}
use scia.Go.{trim_space}
use scia.Proxy.Forward.{Response}
use scia.Secrets.Store.{Op, Store}
use scia.Serviceinfo.Index.{Json, get, put}
use scia.Serviceinfo.Normalize.{normalize}
use Prim.Native.String.{◌++◌}

pub record AdminTokenRequest : Type 0 where
  pub credential_id : String
  pub credential_id_snake : String
  pub key : String
  pub token : String
  pub value : String
  pub user : String
  pub service : Option ServiceConfig

-- decodeAdminTokenRequest, behind the decoding of the body
unfoldable pub decode_admin_token_request : AdminTokenRequest → AdminTokenRequest
decode_admin_token_request r =
    let id = trim_space r.credential_id in
    record r {
      credential_id = if id == "" then trim_space r.credential_id_snake else id;
      key = trim_space r.key;
      user = trim_space r.user;
    }

-- adminTokenRequest.value
abbrev pub value_of : AdminTokenRequest → String
value_of r = if is_set r.token then r.token else r.value

-- adminTokenStorageKey
unfoldable pub admin_token_storage_key : Config → String → String → String → String
unfolding has_user
admin_token_storage_key cfg storage_id credential_id key =
    if cfg.server.secrets.mode == "kubernetes" && has_user cfg storage_id && is_set credential_id
    then credential_id ++ "." ++ key
    else key

-- resolveServiceInputKey
unfoldable pub find_input : String → String → List ServiceInputConfig → Result String
find_input service_id key [] =
    err (errorf "key %q is not a configured input for service %q" (str key ∷ str service_id ∷ []))
find_input service_id key (input ∷ inputs) =
    let rest = find_input service_id key inputs in
    if key == input.id || key == input.secret_key then ok input.secret_key else rest

unfoldable pub resolve_service_input_key : ServiceConfig → String → String → Result String
unfolding find_input
resolve_service_input_key service service_id key = find_input service_id key service.inputs

abbrev pub reply : ℕ → String → Response
reply status body = record { status = status; body = body }

abbrev pub no_content : Response
no_content = reply 204 ""

module _ {S : Type 0} (p : Platform) (json : Json) (store : Store S) where
  abbrev parameter? : Option ServiceConfig → Option ServiceConfig
  parameter? none = none
  parameter? (some s) = if parameter_service s then some s else none

  -- An error of Get is as if there were no such service.
  abbrev stored_parameter : S × Result (Option ServiceConfig) → S × Option ServiceConfig
  stored_parameter (s, ok o) = (s, parameter? o)
  stored_parameter (s, err e) = (s, none)

  -- parameterServiceForCredential
  unfoldable pub parameter_service_for_credential : Config → String → S → S × Option ServiceConfig
  unfolding service_by_id parameter_service
  parameter_service_for_credential cfg id s = elim (parameter? (service_by_id cfg id)) [
    | some service ↦ (s, some service)
    | none ↦ stored_parameter (get p json store id s)
  ]

  abbrev key_for : AdminTokenRequest → S × Option ServiceConfig → S × Result String
  key_for req (s, none) = (s, ok req.key)
  key_for req (s, some service) = (s, resolve_service_input_key service req.credential_id req.key)

  -- resolveAdminPutTokenKey
  unfoldable pub resolve_admin_put_token_key : Config → AdminTokenRequest → Op S String
  unfolding parameter_service_for_credential resolve_service_input_key
  resolve_admin_put_token_key cfg req s = elim (parameter? req.service) [
    | some service ↦ key_for req (s, some service)
    | none ↦ key_for req (parameter_service_for_credential cfg req.credential_id s)
  ]

  abbrev with_client_id : String → Option ServiceOauthConfig → Option ServiceOauthConfig
  with_client_id id none = none
  with_client_id id (some o) =
      some (if o.credential_id == "" then record o { credential_id = id } else o)

  abbrev service_to_store : String → Option ServiceConfig → Result (Option ServiceConfig)
  service_to_store id none = ok none
  service_to_store id (some s) =
      elim (normalize p id (record s { oauth = with_client_id id s.oauth })) [
        | ok n ↦ ok (some n)
        | err e ↦ err e
      ]

  abbrev answer :
      {A : Type 0} → ℕ → (Error → String) → S × Result A → (A → S → S × Response) → S × Response
  answer status body (s, ok a) k = k a s
  answer status body (s, err e) k = (s, reply status (body e))

  abbrev put_service : String → Option ServiceConfig → S → S × Response
  put_service id none s = (s, no_content)
  put_service id (some service) s =
      answer 400 (λ e. "failed to store service metadata") (put p json store id service s)
        (λ _ s. (s, no_content))

  -- serveAdminPutToken
  unfoldable pub serve_admin_put_token : Config → AdminTokenRequest → S → S × Response
  unfolding decode_admin_token_request resolve_admin_put_token_key
  serve_admin_put_token cfg body s =
      let req = decode_admin_token_request body in
      if req.credential_id == "" || req.key == "" || value_of req == ""
      then (s, reply 400 "credentialId, key, and token are required")
      else answer 400 (λ e. e.format) (resolve_admin_put_token_key cfg req s)
          (λ key s.
            answer 400 (λ e. "invalid service metadata: " ++ e.format)
              (s, service_to_store req.credential_id req.service)
              (λ service s.
                answer 502 (λ e. "failed to store token")
                  (store.put req.credential_id key (value_of req) s)
                  (λ _ s. put_service req.credential_id service s)))
