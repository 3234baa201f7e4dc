-- ===== src/Config/Env/Services.antt =====
-- expandEnvStrings at the generic services.
use scia.Base.{String, map}
use scia.Config.Types.{
  ServiceInputConfig, ServiceHostRule, ScopeParamConfig, TokenRequestConfig, ServiceOauthConfig,
  InjectionTemplate, ServiceInjectionConfig, ServiceConfig,
}
use scia.Config.Env.Value.{expand_map, expand_option}

-- The fields are expanded by one function, `header_value_from_env getenv`.
module _ (expand : String → String) where
  unfoldable pub expand_service_input_config : ServiceInputConfig → ServiceInputConfig
  expand_service_input_config r = record r {
    id = expand r.id;
    name = expand r.name;
    description = expand r.description;
    type = expand r.type;
    secret_key = expand r.secret_key;
  }

  unfoldable pub expand_service_host_rule : ServiceHostRule → ServiceHostRule
  expand_service_host_rule r = record {
    host = expand r.host;
    host_suffix = expand r.host_suffix;
    path_prefix = expand r.path_prefix;
    auth_method = expand r.auth_method;
    credential_host_field = expand r.credential_host_field;
  }

  unfoldable pub expand_scope_param_config : ScopeParamConfig → ScopeParamConfig
  expand_scope_param_config r = record {
    name = expand_option expand r.name;
    separator = expand r.separator;
  }

  unfoldable pub expand_token_request_config : TokenRequestConfig → TokenRequestConfig
  expand_token_request_config r = record {
    body_format = expand r.body_format;
    client_auth = expand r.client_auth;
    code_grant_type = expand_option expand r.code_grant_type;
    refresh_grant_type = expand_option expand r.refresh_grant_type;
    refresh_token_url = expand r.refresh_token_url;
    success_field = expand r.success_field;
  }

  unfoldable pub expand_service_oauth_config : ServiceOauthConfig → ServiceOauthConfig
  unfolding expand_scope_param_config expand_token_request_config
  expand_service_oauth_config r = record {
    credential_id = expand r.credential_id;
    client_id = expand r.client_id;
    client_id_secret_ref = expand r.client_id_secret_ref;
    client_secret = expand r.client_secret;
    client_secret_ref = expand r.client_secret_ref;
    auth_url = expand r.auth_url;
    token_url = expand r.token_url;
    revoke_url = expand r.revoke_url;
    redirect_url = expand r.redirect_url;
    scope_param = expand_scope_param_config r.scope_param;
    authorization_params = expand_map expand r.authorization_params;
    token_request = expand_token_request_config r.token_request;
  }

  unfoldable pub expand_injection_template : InjectionTemplate → InjectionTemplate
  expand_injection_template r = record { name = expand r.name; value = expand r.value }

  unfoldable pub expand_service_injection_config : ServiceInjectionConfig → ServiceInjectionConfig
  unfolding expand_injection_template
  expand_service_injection_config r = record {
    headers = map expand_injection_template r.headers;
    query = map expand_injection_template r.query;
  }

  unfoldable pub expand_service_config : ServiceConfig → ServiceConfig
  unfolding expand_service_host_rule expand_service_injection_config expand_service_input_config
      expand_service_oauth_config
  expand_service_config r = record r {
    name = expand r.name;
    icon_url = expand r.icon_url;
    description = expand r.description;
    hosts = map expand_service_host_rule r.hosts;
    inputs = map expand_service_input_config r.inputs;
    oauth = expand_option expand_service_oauth_config r.oauth;
    injection = expand_service_injection_config r.injection;
  }
