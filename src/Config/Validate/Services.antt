-- ===== src/Config/Validate/Services.antt =====
-- Config.Validate: the generic services.
use scia.Base.{
  ℕ, String, List, [], ◌∷◌, Bool, true, false, not, ◌&&◌, ◌||◌, ◌==◌, is_empty, contains, Option,
  none, some, Result, ok, ◌>>◌, ◌>>=◌, refuse, guard, errorf, str, int, if◌then◌else◌,
  for_each_from, traverse_from,
}
use scia.Config.Types.{
  ServiceConfig, ServiceHostRule, ServiceOauthConfig, InjectionTemplate, ServicesConfig,
  TokenRequestConfig,
}
use scia.Config.Ids.{default_to}
use scia.Config.Names.{valid_service_id}
use scia.Config.Inputs.{validate_service_inputs}
use scia.Go.{is_some}

abbrev pub auth_methods : List String
auth_methods = "bearer" ∷ "basic-x-access-token" ∷ "basic" ∷ "none" ∷ []

abbrev pub bool_eq : Bool → Bool → Bool
bool_eq true b = b
bool_eq false b = not b

-- One host rule: exactly one of host and hostSuffix, and a known authMethod, which by default is
-- bearer for a service with OAuth and none for the others.
unfoldable pub check_host : String → Bool → ℕ → ServiceHostRule → Result ServiceHostRule
check_host service_id has_oauth i host = do
  refuse (bool_eq (host.host == "") (host.host_suffix == "")) (
      errorf "server.services[%q].hosts[%d] must set exactly one of host or hostSuffix"
        (str service_id ∷ int i ∷ []))
  let method = default_to (if has_oauth then "bearer" else "none") host.auth_method
  guard (contains auth_methods method) (
      errorf "server.services[%q].hosts[%d] has unsupported authMethod %q"
        (str service_id ∷ int i ∷ str method ∷ []))
  ok (record host { auth_method = method })

-- The separator and the token request's defaults, which are checked behind them.
unfoldable pub with_defaults : String → ServiceOauthConfig → ServiceOauthConfig
with_defaults id o = record o {
  credential_id = default_to id o.credential_id;
  scope_param = record {
    name = o.scope_param.name;
    separator = default_to " " o.scope_param.separator;
  };
  token_request = record {
    body_format = default_to "form" o.token_request.body_format;
    client_auth = default_to "body" o.token_request.client_auth;
    code_grant_type = o.token_request.code_grant_type;
    refresh_grant_type = o.token_request.refresh_grant_type;
    refresh_token_url = o.token_request.refresh_token_url;
    success_field = o.token_request.success_field;
  };
}

-- The client's settings that have no default.
unfoldable pub check_client : String → ServiceOauthConfig → Result (Unit {0})
check_client id o = do
  refuse (o.auth_url == "") (errorf "server.services[%q].oauth.authUrl is required" (str id ∷ []))
  refuse (o.token_url == "") (errorf "server.services[%q].oauth.tokenUrl is required" (str id ∷ []))
  refuse
      (o.client_id == "" && o.client_id_secret_ref == ""
        || o.client_secret == "" && o.client_secret_ref == "")
      (errorf "server.services[%q].oauth requires clientId/clientSecret or secret refs"
        (str id ∷ []))

unfoldable pub check_token_request : String → TokenRequestConfig → Result (Unit {0})
check_token_request id t = do
  guard (contains ("form" ∷ "json" ∷ []) t.body_format) (
      errorf "server.services[%q].oauth.tokenRequest.bodyFormat must be form or json" (str id ∷ []))
  guard (contains ("body" ∷ "basic" ∷ []) t.client_auth) (
      errorf "server.services[%q].oauth.tokenRequest.clientAuth must be body or basic"
        (str id ∷ []))

unfoldable pub check_oauth : String → ServiceOauthConfig → Result ServiceOauthConfig
unfolding check_client check_token_request
check_oauth id o = do
  check_client id o
  check_token_request id (with_defaults id o).token_request
  ok (with_defaults id o)

abbrev pub check_oauth? : String → Option ServiceOauthConfig → Result (Option ServiceOauthConfig)
check_oauth? id none = ok none
check_oauth? id (some o) = check_oauth id o >>= λ o'. ok (some o')

-- A template needs a name and a value; `place` is injection.headers or injection.query.
unfoldable pub check_template : String → String → ℕ → InjectionTemplate → Result (Unit {0})
check_template id place i t =
    refuse (t.name == "" || t.value == "") (
      errorf "server.services[%q].%s[%d] requires name and value" (str id ∷ str place ∷ int i ∷ []))

-- One round of the loop over the services.
unfoldable pub check_service : String → ServiceConfig → Result ServiceConfig
unfolding check_host check_oauth check_template validate_service_inputs valid_service_id
check_service id service = do
  refuse (id == "") (errorf "server.services cannot include an empty service id" [])
  guard (valid_service_id id) (
      errorf
        "server.services[%q] must contain only lowercase letters, numbers, dots, underscores, and hyphens"
        (str id ∷ []))
  refuse (is_empty service.hosts) (errorf "server.services[%q].hosts is required" (str id ∷ []))
  hosts ← traverse_from (check_host id (is_some service.oauth)) 0 service.hosts
  oauth ← check_oauth? id service.oauth
  let service' = record service { hosts = hosts; oauth = oauth }
  validate_service_inputs id service'
  for_each_from (check_template id "injection.headers") 0 service.injection.headers
  for_each_from (check_template id "injection.query") 0 service.injection.query
  ok service'

abbrev pub note_credential : Option ServiceOauthConfig → List String → List String
note_credential none seen = seen
note_credential (some o) seen = o.credential_id ∷ seen

-- The loop: the checked services, and the credential ids seen so far.
unfoldable pub check_services : ServicesConfig → List String → Result (ServicesConfig × List String)
unfolding check_service
check_services [] seen = ok ([], seen)
check_services ((id, service) ∷ services) seen = do
  service' ← check_service id service
  (checked, seen') ← check_services services (note_credential service'.oauth seen)
  ok ((id, service') ∷ checked, seen')
