-- ===== src/Config/Types/Services.antt =====
-- The generic services of config.go.
use scia.Base.{String, Bool, List, Option}

pub record ServiceInputConfig : Type 0 where
  pub id : String
  pub name : String
  pub description : String
  pub type : String
  pub required : Bool
  pub secret_key : String

pub record ServiceHostRule : Type 0 where
  pub host : String
  pub host_suffix : String
  pub path_prefix : String
  pub auth_method : String
  pub credential_host_field : String

pub record ScopeParamConfig : Type 0 where
  pub name : Option String
  pub separator : String

pub record TokenRequestConfig : Type 0 where
  pub body_format : String
  pub client_auth : String
  pub code_grant_type : Option String
  pub refresh_grant_type : Option String
  pub refresh_token_url : String
  pub success_field : String

pub record ServiceOauthConfig : Type 0 where
  pub credential_id : String
  pub client_id : String
  pub client_id_secret_ref : String
  pub client_secret : String
  pub client_secret_ref : String
  pub auth_url : String
  pub token_url : String
  pub revoke_url : String
  pub redirect_url : String
  pub scope_param : ScopeParamConfig
  pub authorization_params : List (String × String)
  pub token_request : TokenRequestConfig

pub record InjectionTemplate : Type 0 where
  pub name : String
  pub value : String

pub record ServiceInjectionConfig : Type 0 where
  pub headers : List InjectionTemplate
  pub query : List InjectionTemplate

pub record ServiceConfig : Type 0 where
  pub name : String
  pub icon_url : String
  pub description : String
  pub released : Option Bool
  pub hosts : List ServiceHostRule
  pub inputs : List ServiceInputConfig
  pub oauth : Option ServiceOauthConfig
  pub injection : ServiceInjectionConfig

-- A map from service ids.
abbrev pub ServicesConfig : Type 0
ServicesConfig = List (String × ServiceConfig)
