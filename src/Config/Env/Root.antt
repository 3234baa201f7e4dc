-- ===== src/Config/Env/Root.antt =====
-- expandEnvStrings at the whole configuration, and ExpandEnv.
use scia.Base.{String, map}
use scia.Config.Types.{
  UserConfig, MitmConfig, BackendProxyConfig, IntegrationConfig, IntegrationsConfig, AwsKmsConfig,
  KmsBrokerConfig, EnvelopeEncryptionConfig, KubernetesSecretsConfig, ExternalSecretsWebhookConfig,
  ExternalSecretsConfig, SecretsConfig, ServerConfig, CredentialConfig, RuleConfig, Config,
}
use scia.Config.Env.Value.{expand_map, header_value_from_env}
use scia.Config.Env.Services.{expand_service_config}
use scia.Config.Env.Providers.{expand_oauth_config}

-- The fields are expanded by one function, `header_value_from_env getenv`.
module _ (expand : String → String) where
  unfoldable pub expand_user_config : UserConfig → UserConfig
  expand_user_config r = record { secret_name = expand r.secret_name }

  unfoldable pub expand_mitm_config : MitmConfig → MitmConfig
  expand_mitm_config r = record {
    ca_cert_path = expand r.ca_cert_path;
    ca_key_path = expand r.ca_key_path;
  }

  unfoldable pub expand_backend_proxy_config : BackendProxyConfig → BackendProxyConfig
  expand_backend_proxy_config r = record { url = expand r.url }

  unfoldable pub expand_integration_config : IntegrationConfig → IntegrationConfig
  expand_integration_config r = record { hosts = map expand r.hosts }

  unfoldable pub expand_integrations_config : IntegrationsConfig → IntegrationsConfig
  unfolding expand_integration_config
  expand_integrations_config r = record {
    google = expand_integration_config r.google;
    notion = expand_integration_config r.notion;
    todoist = expand_integration_config r.todoist;
    slack = expand_integration_config r.slack;
    github = expand_integration_config r.github;
  }

  unfoldable pub expand_aws_kms_config : AwsKmsConfig → AwsKmsConfig
  expand_aws_kms_config r = record { key_id = expand r.key_id; region = expand r.region }

  unfoldable pub expand_kms_broker_config : KmsBrokerConfig → KmsBrokerConfig
  expand_kms_broker_config r = record { url = expand r.url; token = expand r.token }

  unfoldable pub expand_envelope_encryption_config :
      EnvelopeEncryptionConfig → EnvelopeEncryptionConfig
  unfolding expand_aws_kms_config expand_kms_broker_config
  expand_envelope_encryption_config r = record r {
    provider = expand r.provider;
    encryption_context = expand_map expand r.encryption_context;
    aws_kms = expand_aws_kms_config r.aws_kms;
    kms_broker = expand_kms_broker_config r.kms_broker;
  }

  unfoldable pub expand_kubernetes_secrets_config :
      KubernetesSecretsConfig → KubernetesSecretsConfig
  expand_kubernetes_secrets_config r = record r {
    namespace = expand r.namespace;
    dynamic_user_secret_name_prefix = expand r.dynamic_user_secret_name_prefix;
  }

  unfoldable pub expand_external_secrets_webhook_config :
      ExternalSecretsWebhookConfig → ExternalSecretsWebhookConfig
  expand_external_secrets_webhook_config r = record {
    url = expand r.url;
    secret_key = expand r.secret_key;
  }

  unfoldable pub expand_external_secrets_config : ExternalSecretsConfig → ExternalSecretsConfig
  unfolding expand_external_secrets_webhook_config
  expand_external_secrets_config r = record {
    webhook = expand_external_secrets_webhook_config r.webhook;
  }

  unfoldable pub expand_secrets_config : SecretsConfig → SecretsConfig
  unfolding expand_envelope_encryption_config expand_external_secrets_config
      expand_kubernetes_secrets_config
  expand_secrets_config r = record {
    mode = expand r.mode;
    sqlite_path = expand r.sqlite_path;
    envelope_encryption = expand_envelope_encryption_config r.envelope_encryption;
    kubernetes = expand_kubernetes_secrets_config r.kubernetes;
    external = expand_external_secrets_config r.external;
  }

  unfoldable pub expand_server_config : ServerConfig → ServerConfig
  unfolding expand_backend_proxy_config expand_integrations_config expand_mitm_config
      expand_oauth_config expand_secrets_config expand_service_config expand_user_config
  expand_server_config r = record r {
    mode = expand r.mode;
    listen = expand r.listen;
    admin_token = expand r.admin_token;
    mitm = expand_mitm_config r.mitm;
    backend_proxy = expand_backend_proxy_config r.backend_proxy;
    integrations = expand_integrations_config r.integrations;
    services = expand_map (expand_service_config expand) r.services;
    oauth = expand_oauth_config expand r.oauth;
    secrets = expand_secrets_config r.secrets;
    users = expand_map expand_user_config r.users;
  }

  unfoldable pub expand_credential_config : CredentialConfig → CredentialConfig
  expand_credential_config r = record {
    id = expand r.id;
    type = expand r.type;
    header = expand r.header;
    value = expand r.value;
    params = expand_map expand r.params;
  }

  unfoldable pub expand_rule_config : RuleConfig → RuleConfig
  expand_rule_config r = record {
    name = expand r.name;
    hosts = map expand r.hosts;
    methods = map expand r.methods;
    paths = map expand r.paths;
    action = expand r.action;
    credentials = map expand r.credentials;
    services = map expand r.services;
    approval_note = expand r.approval_note;
  }

  unfoldable pub expand_config : Config → Config
  unfolding expand_credential_config expand_rule_config expand_server_config
  expand_config r = record {
    server = expand_server_config r.server;
    credentials = map expand_credential_config r.credentials;
    rules = map expand_rule_config r.rules;
  }

-- ExpandEnv
unfoldable pub expand_env : (String → String) → Config → Config
unfolding expand_config header_value_from_env
expand_env getenv c = expand_config (header_value_from_env getenv) c
