-- ===== src/Config/Env/Providers.antt =====
-- expandEnvStrings at the OAuth providers.
use scia.Base.{String, map}
use scia.Config.Types.{
  OauthIntegrationScopeConfig, OauthIntegrationMetadataConfig, GoogleOauthConfig, NotionOauthConfig,
  TodoistOauthConfig, SlackOauthConfig, GitHubOauthConfig, OauthConfig,
}
use scia.Config.Env.Value.{expand_map}

-- The fields are expanded by one function, `header_value_from_env getenv`.
module _ (expand : String → String) where
  unfoldable pub expand_oauth_integration_scope_config :
      OauthIntegrationScopeConfig → OauthIntegrationScopeConfig
  expand_oauth_integration_scope_config r = record r {
    id = expand r.id;
    value = expand r.value;
    name = expand r.name;
    desc = expand r.desc;
    label = expand r.label;
    description = expand r.description;
    group = expand r.group;
    group_name = expand r.group_name;
    group_desc = expand r.group_desc;
  }

  unfoldable pub expand_oauth_integration_metadata_config :
      OauthIntegrationMetadataConfig → OauthIntegrationMetadataConfig
  unfolding expand_oauth_integration_scope_config
  expand_oauth_integration_metadata_config r = record r {
    name = expand r.name;
    icon_url = expand r.icon_url;
    description = expand r.description;
    setup = expand_map expand r.setup;
    scopes = map expand_oauth_integration_scope_config r.scopes;
  }

  unfoldable pub expand_google_oauth_config : GoogleOauthConfig → GoogleOauthConfig
  expand_google_oauth_config r = record {
    credential_id = expand r.credential_id;
    client_id = expand r.client_id;
    client_id_secret_ref = expand r.client_id_secret_ref;
    client_secret = expand r.client_secret;
    client_secret_ref = expand r.client_secret_ref;
    scope = expand r.scope;
    auth_url = expand r.auth_url;
    token_url = expand r.token_url;
    revoke_url = expand r.revoke_url;
    redirect_url = expand r.redirect_url;
  }

  unfoldable pub expand_notion_oauth_config : NotionOauthConfig → NotionOauthConfig
  expand_notion_oauth_config r = record {
    credential_id = expand r.credential_id;
    client_id = expand r.client_id;
    client_id_secret_ref = expand r.client_id_secret_ref;
    client_secret = expand r.client_secret;
    client_secret_ref = expand r.client_secret_ref;
    auth_url = expand r.auth_url;
    token_url = expand r.token_url;
    revoke_url = expand r.revoke_url;
    redirect_url = expand r.redirect_url;
    notion_version = expand r.notion_version;
  }

  unfoldable pub expand_todoist_oauth_config : TodoistOauthConfig → TodoistOauthConfig
  expand_todoist_oauth_config r = record {
    credential_id = expand r.credential_id;
    client_id = expand r.client_id;
    client_id_secret_ref = expand r.client_id_secret_ref;
    client_secret = expand r.client_secret;
    client_secret_ref = expand r.client_secret_ref;
    scope = expand r.scope;
    auth_url = expand r.auth_url;
    token_url = expand r.token_url;
    revoke_url = expand r.revoke_url;
    redirect_url = expand r.redirect_url;
  }

  unfoldable pub expand_slack_oauth_config : SlackOauthConfig → SlackOauthConfig
  expand_slack_oauth_config r = record {
    credential_id = expand r.credential_id;
    client_id = expand r.client_id;
    client_id_secret_ref = expand r.client_id_secret_ref;
    client_secret = expand r.client_secret;
    client_secret_ref = expand r.client_secret_ref;
    scope = expand r.scope;
    auth_url = expand r.auth_url;
    token_url = expand r.token_url;
    refresh_token_url = expand r.refresh_token_url;
    revoke_url = expand r.revoke_url;
    redirect_url = expand r.redirect_url;
  }

  unfoldable pub expand_github_oauth_config : GitHubOauthConfig → GitHubOauthConfig
  expand_github_oauth_config r = record {
    credential_id = expand r.credential_id;
    client_id = expand r.client_id;
    client_id_secret_ref = expand r.client_id_secret_ref;
    client_secret = expand r.client_secret;
    client_secret_ref = expand r.client_secret_ref;
    scope = expand r.scope;
    auth_url = expand r.auth_url;
    token_url = expand r.token_url;
    revoke_url = expand r.revoke_url;
    redirect_url = expand r.redirect_url;
  }

  unfoldable pub expand_oauth_config : OauthConfig → OauthConfig
  unfolding expand_github_oauth_config expand_google_oauth_config expand_notion_oauth_config
      expand_oauth_integration_metadata_config expand_slack_oauth_config expand_todoist_oauth_config
  expand_oauth_config r = record {
    listen = expand r.listen;
    redirect_url = expand r.redirect_url;
    metadata_url = expand r.metadata_url;
    metadata_token = expand r.metadata_token;
    integrations = expand_map expand_oauth_integration_metadata_config r.integrations;
    google = expand_google_oauth_config r.google;
    notion = expand_notion_oauth_config r.notion;
    todoist = expand_todoist_oauth_config r.todoist;
    slack = expand_slack_oauth_config r.slack;
    github = expand_github_oauth_config r.github;
  }
