-- ===== src/Config/Types/Root.antt =====
-- The server, the secret stores, credentials and rules of config.go. A duration is an integer of
-- nanoseconds.
use scia.Base.{String, Bool, List, Option, ℤ}
use scia.Config.Types.Services.{ServicesConfig}
use scia.Config.Types.Providers.{OauthConfig}

pub record UserConfig : Type 0 where
  pub secret_name : String

pub record MitmConfig : Type 0 where
  pub ca_cert_path : String
  pub ca_key_path : String

pub record BackendProxyConfig : Type 0 where
  pub url : String

pub record IntegrationConfig : Type 0 where
  pub hosts : List String

pub record IntegrationsConfig : Type 0 where
  pub google : IntegrationConfig
  pub notion : IntegrationConfig
  pub todoist : IntegrationConfig
  pub slack : IntegrationConfig
  pub github : IntegrationConfig

pub record AwsKmsConfig : Type 0 where
  pub key_id : String
  pub region : String

pub record KmsBrokerConfig : Type 0 where
  pub url : String
  pub token : String

pub record EnvelopeEncryptionConfig : Type 0 where
  pub provider : String
  pub cache_ttl : Option ℤ
  pub cache_max_entries : Option ℤ
  pub encryption_context : List (String × String)
  pub aws_kms : AwsKmsConfig
  pub kms_broker : KmsBrokerConfig

pub record KubernetesSecretsConfig : Type 0 where
  pub namespace : String
  pub dynamic_users : Bool
  pub dynamic_user_secret_name_prefix : String

pub record ExternalSecretsWebhookConfig : Type 0 where
  pub url : String
  pub secret_key : String

pub record ExternalSecretsConfig : Type 0 where
  pub webhook : ExternalSecretsWebhookConfig

pub record SecretsConfig : Type 0 where
  pub mode : String
  pub sqlite_path : String
  pub envelope_encryption : EnvelopeEncryptionConfig
  pub kubernetes : KubernetesSecretsConfig
  pub external : ExternalSecretsConfig

pub record ServerConfig : Type 0 where
  pub mode : String
  pub listen : String
  pub admin_token : String
  pub approval_timeout : ℤ
  pub mitm : MitmConfig
  pub backend_proxy : BackendProxyConfig
  pub integrations : IntegrationsConfig
  pub services : ServicesConfig
  pub oauth : OauthConfig
  pub secrets : SecretsConfig
  pub users : List (String × UserConfig)

pub record CredentialConfig : Type 0 where
  pub id : String
  pub type : String
  pub header : String
  pub value : String
  pub params : List (String × String)

pub record RuleConfig : Type 0 where
  pub name : String
  pub hosts : List String
  pub methods : List String
  pub paths : List String
  pub action : String
  pub credentials : List String
  pub services : List String
  pub approval_note : String

pub record Config : Type 0 where
  pub server : ServerConfig
  pub credentials : List CredentialConfig
  pub rules : List RuleConfig
