-- ===== src/Config/Types/Providers.antt =====
-- The OAuth providers of config.go and the metadata of their integrations.
use scia.Base.{String, Bool, List, Option}

pub record OauthIntegrationScopeConfig : Type 0 where
  pub id : String
  pub value : String
  pub name : String
  pub desc : String
  pub label : String
  pub description : String
  pub group : String
  pub group_name : String
  pub group_desc : String
  pub enabled : Option Bool

pub record OauthIntegrationMetadataConfig : Type 0 where
  pub name : String
  pub icon_url : String
  pub description : String
  pub released : Option Bool
  pub setup : List (String × String)
  pub scopes : List OauthIntegrationScopeConfig

pub record GoogleOauthConfig : Type 0 where
  pub credential_id : String
  pub client_id : String
  pub client_id_secret_ref : String
  pub client_secret : String
  pub client_secret_ref : String
  pub scope : String
  pub auth_url : String
  pub token_url : String
  pub revoke_url : String
  pub redirect_url : String

pub record NotionOauthConfig : Type 0 where
  pub credential_id : String
  pub client_id : String
  pub client_id_secret_ref : String
  pub client_secret : String
  pub client_secret_ref : String
  pub auth_url : String
  pub token_url : String
  pub revoke_url : String
  pub redirect_url : String
  pub notion_version : String

pub record TodoistOauthConfig : Type 0 where
  pub credential_id : String
  pub client_id : String
  pub client_id_secret_ref : String
  pub client_secret : String
  pub client_secret_ref : String
  pub scope : String
  pub auth_url : String
  pub token_url : String
  pub revoke_url : String
  pub redirect_url : String

pub record SlackOauthConfig : Type 0 where
  pub credential_id : String
  pub client_id : String
  pub client_id_secret_ref : String
  pub client_secret : String
  pub client_secret_ref : String
  pub scope : String
  pub auth_url : String
  pub token_url : String
  pub refresh_token_url : String
  pub revoke_url : String
  pub redirect_url : String

pub record GitHubOauthConfig : Type 0 where
  pub credential_id : String
  pub client_id : String
  pub client_id_secret_ref : String
  pub client_secret : String
  pub client_secret_ref : String
  pub scope : String
  pub auth_url : String
  pub token_url : String
  pub revoke_url : String
  pub redirect_url : String

pub record OauthConfig : Type 0 where
  pub listen : String
  pub redirect_url : String
  pub metadata_url : String
  pub metadata_token : String
  pub integrations : List (String × OauthIntegrationMetadataConfig)
  pub google : GoogleOauthConfig
  pub notion : NotionOauthConfig
  pub todoist : TodoistOauthConfig
  pub slack : SlackOauthConfig
  pub github : GitHubOauthConfig
