-- ===== src/Config/Validate/ServiceSound.antt =====
-- What Config.Validate establishes of the services.
use scia.Base.{
  ℕ, String, List, [], ◌∷◌, Bool, ◌==◌, ◌≡◌, ◌≢◌, refl, ◌⊎◌, arith, eq_iff, ok, >>=-eq-ok, >>-eq-ok,
  guard-eq-ok, refuse-eq-ok, for_each_from_sound, traverse_from_sound, All, Elem, Elem-of_contains,
  ne_of_test, Option, some, none, refuse, guard, for_each_from, traverse_from, traverse_from-ne,
  is_empty, ne_of_is_empty, ok-injective, subst,
}
use scia.Config.Types.{
  ServiceConfig, ServiceHostRule, ServiceOauthConfig, TokenRequestConfig, InjectionTemplate,
  ServicesConfig,
}
use scia.Config.Ids.{default_to-ne}
use scia.Config.Names.{valid_service_id}
use scia.Config.Inputs.{validate_service_inputs}
use scia.Config.Validate.Services.{
  auth_methods, check_host, with_defaults, check_client, check_token_request, check_oauth,
  check_oauth?, check_template, check_service, check_services, note_credential,
}
use scia.Go.{is_some}
use scia.Config.Validate.WellFormed.{
  IsValidHost, IsValidOauth, IsValidOauth?, IsValidTemplate, IsValidService,
}

check_host-IsValid :
    (id : String) (b : Bool) (i : ℕ) (h h' : ServiceHostRule)
    → check_host id b i h ≡ ok h'
    → IsValidHost h'
unfolding check_host
check_host-IsValid id b i h h' e = record {
  one_of = ground (
    arith,
    eq_iff h.host "",
    eq_iff h.host_suffix "",
    eq_iff h'.host "",
    eq_iff h'.host_suffix "",
  );
  method = Elem-of_contains auth_methods h'.auth_method (ground arith);
}

check_template-IsValid :
    (id place : String) (i : ℕ) (t : InjectionTemplate)
    → check_template id place i t ≡ ok tt
    → IsValidTemplate t
unfolding check_template
check_template-IsValid id place i t h =
    (ne_of_test t.name "" (ground arith), ne_of_test t.value "" (ground arith))

check_client-facts :
    (id : String) (o : ServiceOauthConfig)
    → check_client id o ≡ ok tt
    → (o.auth_url ≢ "")
      × (o.token_url ≢ "")
      × ((o.client_id ≢ "") ⊎ (o.client_id_secret_ref ≢ ""))
      × ((o.client_secret ≢ "") ⊎ (o.client_secret_ref ≢ ""))
unfolding check_client
check_client-facts id o h = (
  ne_of_test o.auth_url "" (ground arith),
  ne_of_test o.token_url "" (ground arith),
  ground (arith, eq_iff o.client_id "", eq_iff o.client_id_secret_ref ""),
  ground (arith, eq_iff o.client_secret "", eq_iff o.client_secret_ref ""),
)

check_token_request-facts :
    (id : String) (t : TokenRequestConfig)
    → check_token_request id t ≡ ok tt
    → Elem t.body_format ("form" ∷ "json" ∷ []) × Elem t.client_auth ("body" ∷ "basic" ∷ [])
unfolding check_token_request
check_token_request-facts id t h = (
  Elem-of_contains ("form" ∷ "json" ∷ []) t.body_format (ground arith),
  Elem-of_contains ("body" ∷ "basic" ∷ []) t.client_auth (ground arith),
)

with_defaults-IsValid :
    (id : String) (o : ServiceOauthConfig)
    → id ≢ ""
    → check_client id o ≡ ok tt
    → check_token_request id (with_defaults id o).token_request ≡ ok tt
    → IsValidOauth (with_defaults id o)
unfolding with_defaults
with_defaults-IsValid id o s h k =
    let (auth_url, token_url, client, secret) = check_client-facts id o h in
    let (body_format, client_auth) = check_token_request-facts id _ k in
    record {
      credential_id = default_to-ne id o.credential_id s;
      auth_url = auth_url;
      token_url = token_url;
      client = client;
      secret = secret;
      separator = default_to-ne " " o.scope_param.separator (ne_of_test " " "" refl);
      body_format = body_format;
      client_auth = client_auth;
    }

check_oauth-IsValid :
    (id : String) (o o' : ServiceOauthConfig) → id ≢ "" → check_oauth id o ≡ ok o' → IsValidOauth o'
unfolding check_oauth
check_oauth-IsValid id o o' s h =
    let (h₁, r₁) = >>-eq-ok (check_client id o) _ h in
    let (h₂, r₂) = >>-eq-ok (check_token_request id (with_defaults id o).token_request) _ r₁ in
    subst IsValidOauth (ok-injective r₂) (with_defaults-IsValid id o s h₁ h₂)

check_oauth?-IsValid :
    (id : String) (o o' : Option ServiceOauthConfig)
    → id ≢ ""
    → check_oauth? id o ≡ ok o'
    → IsValidOauth? o'
check_oauth?-IsValid id none o' s h = subst IsValidOauth? (ok-injective h) tt
check_oauth?-IsValid id (some o) o' s h =
    let (o₁, h₁, r₁) = >>=-eq-ok (check_oauth id o) _ h in
    subst IsValidOauth? (ok-injective r₁) (check_oauth-IsValid id o o₁ s h₁)

check_service-IsValid :
    (id : String) (s s' : ServiceConfig) → check_service id s ≡ ok s' → IsValidService id s'
unfolding check_service
check_service-IsValid id s s' h =
    let (h₁, r₁) = >>-eq-ok (refuse (id == "") _) _ h in
    let (h₂, r₂) = >>-eq-ok (guard (valid_service_id id) _) _ r₁ in
    let (h₃, r₃) = >>-eq-ok (refuse (is_empty s.hosts) _) _ r₂ in
    let (hosts, h₄, r₄) =
      >>=-eq-ok (traverse_from (check_host id (is_some s.oauth)) 0 s.hosts) _ r₃ in
    let (oauth, h₅, r₅) = >>=-eq-ok (check_oauth? id s.oauth) _ r₄ in
    let t : ServiceConfig = record s { hosts = hosts; oauth = oauth } in
    let (h₆, r₆) = >>-eq-ok (validate_service_inputs id t) _ r₅ in
    let (h₇, r₇) =
      >>-eq-ok (for_each_from (check_template id "injection.headers") 0 s.injection.headers) _ r₆ in
    let (h₈, r₈) =
      >>-eq-ok (for_each_from (check_template id "injection.query") 0 s.injection.query) _ r₇ in
    let id_set = ne_of_test id "" (refuse-eq-ok _ _ h₁) in
    subst (IsValidService id) (ok-injective r₈) (record {
      id_set = id_set;
      id_shape = guard-eq-ok _ _ h₂;
      hosts =
          traverse_from_sound (check_host id (is_some s.oauth)) IsValidHost 0 s.hosts
            (check_host-IsValid id (is_some s.oauth)) h₄;
      some_host =
          ne_of_is_empty hosts
            (traverse_from-ne (check_host id (is_some s.oauth)) 0 s.hosts (refuse-eq-ok _ _ h₃) h₄);
      oauth = check_oauth?-IsValid id s.oauth oauth id_set h₅;
      inputs = h₆;
      headers =
          for_each_from_sound (check_template id "injection.headers") IsValidTemplate 0 _
            (check_template-IsValid id "injection.headers") h₇;
      query =
          for_each_from_sound (check_template id "injection.query") IsValidTemplate 0 _
            (check_template-IsValid id "injection.query") h₈;
    })

pub check_services-IsValid :
    (services : ServicesConfig) (seen : List String) {checked : ServicesConfig}
    {known : List String}
    → check_services services seen ≡ ok (checked, known)
    → All (λ e. IsValidService e.0 e.1) checked
unfolding check_services
check_services-IsValid [] seen h =
    subst (λ r. All (λ e. IsValidService e.0 e.1) r.0) (ok-injective h) tt
check_services-IsValid ((id, s) ∷ services) seen h =
    let (s', h₁, r₁) = >>=-eq-ok (check_service id s) _ h in
    let (rest, h₂, r₂) = >>=-eq-ok (check_services services (note_credential s'.oauth seen)) _ r₁ in
    subst (λ r. All (λ e. IsValidService e.0 e.1) r.0) (ok-injective r₂)
      (check_service-IsValid id s s' h₁, check_services-IsValid services _ h₂)
