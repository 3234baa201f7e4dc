-- ===== src/Auth/Services.antt =====
-- internal/auth/credential.go: the services of a request, ApplyServices.
use scia.Base.{
  String, List, [], ◌∷◌, not, ◌&&◌, ◌==◌, append, is_empty, Option, none, some, Result, ok, err,
  errorf, Arg, str, insert, if◌then◌else◌,
}
use scia.Auth.Generic.{generic_credential, generic_oauth_fields}
use scia.Auth.Inject.{apply_auth_method, render_injection, set_header}
use scia.Auth.Providers.{failing}
use scia.Auth.Secrets.{env, within, secret_value}
use scia.Auth.Types.{Fields, Injector, Outside}
use scia.Config.Inputs.{parameter_service}
use scia.Config.Lookup.{service_by_id, param}
use scia.Config.Types.{Config, ServiceConfig, ServiceHostRule, InjectionTemplate}
use scia.Go.Http.{Header, header_set, Request, Url}
use scia.Auth.Monad.{Op, lift, return, ◌>>=◌, ◌>>◌}
use scia.Serviceinfo.Fetch.{fetch}
use scia.Serviceinfo.Hosts.{host_rule}
use scia.Serviceinfo.Index.{get, put}

-- The credential whose secrets a service's templates see.
abbrev pub service_credential_id : String → ServiceConfig → String
service_credential_id id s = elim s.oauth [ none ↦ id | some oauth ↦ oauth.credential_id ]

-- fmt.Errorf("service %q: %w", id, err)
abbrev pub in_service : {S A : Type 0} → String → Op S A → Op S A
in_service id m s = wrap (m s)
  where
    wrap : {S A : Type 0} → S × Result A → S × Result A
    wrap (s, ok a) = (s, ok a)
    wrap (s, err e) = (s, err (errorf (append "service %q: " e.format) (str id ∷ e.args)))

abbrev target_args : Option Url → List Arg
target_args none = []
target_args (some u) = str u.host ∷ str u.path ∷ []

module _ {S : Type 0} (o : Outside S) where
  -- serviceByID: the configuration, the store, and the metadata endpoint where one is configured.
  abbrev fetch_and_put : Config → String → Op S (Option ServiceConfig)
  fetch_and_put cfg id =
      fetch o.platform o.metadata (env o cfg.server.oauth.metadata_url)
        (env o cfg.server.oauth.metadata_token) id
      >>= λ service. put o.platform o.json o.store id service >> return (some service)

  abbrev fetch_if_none : Config → String → Option ServiceConfig → Op S (Option ServiceConfig)
  fetch_if_none cfg id (some service) = return (some service)
  fetch_if_none cfg id none =
      if env o cfg.server.oauth.metadata_url == "" then return none else fetch_and_put cfg id

  abbrev stored_service : Config → String → Option ServiceConfig → Op S (Option ServiceConfig)
  stored_service cfg id (some service) = return (some service)
  stored_service cfg id none = get o.platform o.json o.store id >>= fetch_if_none cfg id

  unfoldable pub service_of_id : Config → String → Op S (Option ServiceConfig)
  unfolding service_by_id get fetch put
  service_of_id cfg id = stored_service cfg id (service_by_id cfg id)

  -- parameterServiceToken
  abbrev not_empty : String → String → Op (Injector S) String
  not_empty id value =
      if value == ""
      then lift (err (errorf "service %q requires %q" (str id ∷ str "access_token" ∷ [])))
      else return value

  unfoldable pub parameter_service_token : Config → String → Op (Injector S) String
  unfolding secret_value
  parameter_service_token cfg id =
      secret_value o cfg (generic_credential id) "access_token" >>= not_empty id

  -- applyServiceInjection: the headers, then the parameters of the query.
  unfoldable pub inject_headers :
      Config → String → Fields → List InjectionTemplate → Request → Op (Injector S) Request
  unfolding render_injection header_set
  inject_headers cfg id fields [] r = return r
  inject_headers cfg id fields (t ∷ ts) r = render_injection o cfg id t.value fields >>= λ value.
      inject_headers cfg id fields ts (set_header t.name value r)

  unfoldable pub inject_query :
      Config → String → Fields → List InjectionTemplate → Header → Op (Injector S) Header
  unfolding render_injection
  inject_query cfg id fields [] q = return q
  inject_query cfg id fields (t ∷ ts) q = render_injection o cfg id t.value fields >>= λ value.
      inject_query cfg id fields ts (insert t.name (value ∷ []) q)

  abbrev pub with_query : Request → Option Url → String → Request
  with_query r none query = r
  with_query r (some u) query = record r { url = some (record u { raw_query = query }) }

  abbrev query_of : Option Url → String
  query_of none = ""
  query_of (some u) = u.raw_query

  abbrev pub inject_query? :
      Config → String → Fields → List InjectionTemplate → Request → Op (Injector S) Request
  inject_query? cfg id fields ts r =
      if is_empty ts
      then return r
      else inject_query cfg id fields ts (o.parse_query (query_of r.url)) >>= λ q.
          return (with_query r r.url (o.encode_query q))

  unfoldable pub apply_service_injection :
      Config → String → ServiceConfig → Fields → Request → Op (Injector S) Request
  unfolding inject_headers inject_query
  apply_service_injection cfg id service fields r =
      let cred_id = service_credential_id id service in
      inject_headers cfg cred_id fields service.injection.headers r
      >>= inject_query? cfg cred_id fields service.injection.query

  -- One round of ApplyServices: the token of an OAuth service, or the one that is stored for a
  -- service with inputs, by the host rule's method; then the templates.
  abbrev pub apply_token :
      Config
      → String
      → ServiceConfig
      → ServiceHostRule
      → Request
      → Op (Injector S) (Request × Fields)
  apply_token cfg id service rule r = elim service.oauth [
    | some oauth ↦ generic_oauth_fields o cfg service >>= λ fields.
        in_service id (lift (apply_auth_method o r rule.auth_method (param "access_token" fields)))
        >>= λ r'. return (r', fields)
    | none ↦
        if parameter_service service && not (rule.auth_method == "none")
        then (in_service id (
              parameter_service_token cfg id >>= λ token.
              lift (apply_auth_method o r rule.auth_method token))
            >>= λ r'. return (r', []))
        else return (r, [])
  ]

  abbrev pub apply_rule :
      Config → String → ServiceConfig → Request → Option ServiceHostRule → Op (Injector S) Request
  apply_rule cfg id service r none =
      lift (err (errorf "service %q does not match %s%s" (str id ∷ target_args r.url)))
  apply_rule cfg id service r (some rule) = apply_token cfg id service rule r >>= λ (r', fields).
      in_service id (apply_service_injection cfg id service fields r')

  abbrev pub rule_of : ServiceConfig → Option Url → Option ServiceHostRule
  rule_of service none = none
  rule_of service (some u) = host_rule service u.host u.path

  abbrev pub apply_service_found :
      Config → String → Request → Option ServiceConfig → Op (Injector S) Request
  apply_service_found cfg id r none = failing o "service %q not found" id
  apply_service_found cfg id r (some service) = apply_rule cfg id service r (rule_of service r.url)

  unfoldable pub apply_service : Config → String → Request → Op (Injector S) Request
  unfolding service_of_id parameter_service host_rule generic_oauth_fields apply_auth_method
      parameter_service_token apply_service_injection
  apply_service cfg id r =
      in_service id (within o (service_of_id cfg id)) >>= apply_service_found cfg id r

  -- ApplyServices
  unfoldable pub apply_services : Config → List String → Request → Op (Injector S) Request
  unfolding apply_service
  apply_services cfg [] r = return r
  apply_services cfg (id ∷ ids) r = apply_service cfg id r >>= apply_services cfg ids
