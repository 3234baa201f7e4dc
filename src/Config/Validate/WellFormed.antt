-- ===== src/Config/Validate/WellFormed.antt =====
-- What is shown of the parts of a configuration that Config.Validate accepts.
use scia.Base.{String, List, [], ◌∷◌, map, true, ◌≡◌, ◌≢◌, ◌⊎◌, ok, All, Elem, Option, some, none}
use scia.Config.Types.{
  CredentialConfig, RuleConfig, ServiceConfig, ServiceHostRule, ServiceOauthConfig,
  InjectionTemplate,
}
use scia.Config.Names.{valid_service_id}
use scia.Config.Inputs.{validate_service_inputs}
use scia.Config.Validate.Services.{auth_methods}
use scia.Config.Validate.Rules.{credential_types}
use scia.Go.{trim_space}

abbrev pub credential_ids : List CredentialConfig → List String
credential_ids = map (λ c. c.id)

pub record IsValidCredential (c : CredentialConfig) : Type 0 where
  pub id : c.id ≢ ""
  pub type : Elem c.type credential_types
  pub header : c.type ≡ "static-header" → c.header ≢ ""

pub record IsValidRule (r : RuleConfig) : Type 0 where
  pub name : r.name ≢ ""
  pub action : Elem r.action ("allow" ∷ "deny" ∷ "approval" ∷ [])
  pub hosts : r.credentials ≢ [] → r.hosts ≢ []
  pub plain_hosts :
      r.credentials ≢ [] → All (λ h. (trim_space h ≢ "") × (trim_space h ≢ "*")) r.hosts
  pub services : All (λ id. (id ≢ "") × (valid_service_id id ≡ true)) r.services

-- Exactly one of `host` and `host_suffix` is set, and the method is known.
pub record IsValidHost (h : ServiceHostRule) : Type 0 where
  pub one_of : ((h.host ≡ "") × (h.host_suffix ≢ "")) ⊎ ((h.host ≢ "") × (h.host_suffix ≡ ""))
  pub method : Elem h.auth_method auth_methods

pub record IsValidOauth (o : ServiceOauthConfig) : Type 0 where
  pub credential_id : o.credential_id ≢ ""
  pub auth_url : o.auth_url ≢ ""
  pub token_url : o.token_url ≢ ""
  pub client : (o.client_id ≢ "") ⊎ (o.client_id_secret_ref ≢ "")
  pub secret : (o.client_secret ≢ "") ⊎ (o.client_secret_ref ≢ "")
  pub separator : o.scope_param.separator ≢ ""
  pub body_format : Elem o.token_request.body_format ("form" ∷ "json" ∷ [])
  pub client_auth : Elem o.token_request.client_auth ("body" ∷ "basic" ∷ [])

abbrev pub IsValidOauth? : Option ServiceOauthConfig → Type 0
IsValidOauth? none = Unit
IsValidOauth? (some o) = IsValidOauth o

abbrev pub IsValidTemplate : InjectionTemplate → Type 0
IsValidTemplate t = (t.name ≢ "") × (t.value ≢ "")

pub record IsValidService (id : String) (s : ServiceConfig) : Type 0 where
  pub id_set : id ≢ ""
  pub id_shape : valid_service_id id ≡ true
  pub hosts : All IsValidHost s.hosts
  pub some_host : s.hosts ≢ []
  pub oauth : IsValidOauth? s.oauth
  pub inputs : validate_service_inputs id s ≡ ok tt
  pub headers : All IsValidTemplate s.injection.headers
  pub query : All IsValidTemplate s.injection.query
