-- ===== src/Serviceinfo/Normalize.antt =====
-- internal/serviceinfo/serviceinfo.go: the checks and defaults of a service's metadata. The source
-- writes the defaults into the lists and the OAuth client that its argument shares with the caller;
-- here the caller sees them in the result only.
use scia.Base.{
  ℕ, String, [], ◌∷◌, Bool, ◌||◌, ◌==◌, is_empty, contains, Option, none, some, Result, ok, err,
  ◌>>=◌, ◌>>◌, refuse, guard, errorf, str, int, if◌then◌else◌, for_each_from, traverse_from,
}
use scia.Config.Types.{
  ServiceConfig, ServiceHostRule, ServiceOauthConfig, TokenRequestConfig, InjectionTemplate,
}
use scia.Config.Ids.{default_to, is_set}
use scia.Config.Inputs.{validate_service_inputs}
use scia.Config.Platform.{Platform, ParsedUrl}
use scia.Config.Validate.Services.{auth_methods, bool_eq, with_defaults}
use scia.Go.{is_some}

-- validateURL; the error of url.Parse is not told apart.
abbrev check_parsed : String → Option ParsedUrl → Result (Unit {0})
check_parsed field none = err (errorf "%s is invalid: %w" (str field ∷ []))
check_parsed field (some u) = do
  guard (u.scheme == "http" || u.scheme == "https")
      (errorf "%s must use http or https scheme" (str field ∷ []))
  refuse (u.host == "") (errorf "%s must include a host" (str field ∷ []))

unfoldable pub validate_url : Platform → String → String → Result (Unit {0})
validate_url p field raw = check_parsed field (p.parse_url raw)

abbrev pub validate_url? : Platform → String → String → Result (Unit {0})
validate_url? p field raw = if is_set raw then validate_url p field raw else ok tt

-- One round of the loop over the hosts.
unfoldable pub normalize_host : String → Bool → ℕ → ServiceHostRule → Result ServiceHostRule
normalize_host service_id has_oauth i host = do
  refuse (bool_eq (host.host == "") (host.host_suffix == "")) (
      errorf "service %q hosts[%d] must set exactly one of host or hostSuffix"
        (str service_id ∷ int i ∷ []))
  let method = default_to (if has_oauth then "bearer" else "none") host.auth_method
  guard (contains auth_methods method) (
      errorf "service %q hosts[%d] has unsupported authMethod %q"
        (str service_id ∷ int i ∷ str method ∷ []))
  ok (record host { auth_method = method })

unfoldable pub check_request : String → TokenRequestConfig → Result (Unit {0})
check_request id t = do
  guard (contains ("form" ∷ "json" ∷ []) t.body_format)
      (errorf "service %q oauth.tokenRequest.bodyFormat must be form or json" (str id ∷ []))
  guard (contains ("body" ∷ "basic" ∷ []) t.client_auth)
      (errorf "service %q oauth.tokenRequest.clientAuth must be body or basic" (str id ∷ []))

-- The OAuth client: the URLs that are set, and the defaults of Validate.
unfoldable pub normalize_oauth : Platform → String → ServiceOauthConfig → Result ServiceOauthConfig
unfolding check_request validate_url with_defaults
normalize_oauth p id o = do
  validate_url? p "authUrl" o.auth_url
  validate_url? p "tokenUrl" o.token_url
  validate_url? p "revokeUrl" o.revoke_url
  check_request id (with_defaults id o).token_request
  ok (with_defaults id o)

abbrev pub normalize_oauth? :
    Platform → String → Option ServiceOauthConfig → Result (Option ServiceOauthConfig)
normalize_oauth? p id none = ok none
normalize_oauth? p id (some o) = normalize_oauth p id o >>= λ o'. ok (some o')

unfoldable pub normalize_template : String → String → ℕ → InjectionTemplate → Result (Unit {0})
normalize_template id place i t =
    refuse (t.name == "" || t.value == "")
      (errorf "service %q %s[%d] requires name and value" (str id ∷ str place ∷ int i ∷ []))

-- Normalize
unfoldable pub normalize : Platform → String → ServiceConfig → Result ServiceConfig
unfolding normalize_host normalize_oauth normalize_template validate_service_inputs
normalize p id service = do
  refuse (id == "") (errorf "service id is required" [])
  refuse (is_empty service.hosts) (errorf "service %q hosts are required" (str id ∷ []))
  hosts ← traverse_from (normalize_host id (is_some service.oauth)) 0 service.hosts
  oauth ← normalize_oauth? p id service.oauth
  let service' = record service { hosts = hosts; oauth = oauth }
  for_each_from (normalize_template id "injection.headers") 0 service.injection.headers
  for_each_from (normalize_template id "injection.query") 0 service.injection.query
  validate_service_inputs id service'
  ok service'

-- SanitizeForClient
abbrev without_client : Option ServiceOauthConfig → Option ServiceOauthConfig
without_client none = none
without_client (some o) = some (record o {
  client_id = "";
  client_id_secret_ref = "";
  client_secret = "";
  client_secret_ref = "";
})

unfoldable pub sanitize_for_client : ServiceConfig → ServiceConfig
sanitize_for_client s = record s { oauth = without_client s.oauth }
