-- ===== src/Tests/Fixture.antt =====
-- A configuration with one credential, one rule that asks for an approval and injects the credential,
-- and one rule that denies.
use scia.Base.{[], ◌∷◌, none, some, false, pos, ok, ◌≡◌, refl}
use scia.Config.Types.{Config, CredentialConfig, RuleConfig}
use scia.Config.Platform.{Platform}
use scia.Config.Ids.{
  google_has_client_config, notion_has_client_config, todoist_has_client_config,
  slack_has_client_config, github_has_client_config,
}
use scia.Go.Http.{Request, Url}
use scia.Config.Validate.Rules.{validate}

abbrev pub platform : Platform
platform = record {
  getenv = λ _. "";
  parse_url = λ s. some (record { scheme = "https"; host = "example.com"; text = s });
}

abbrev pub api_credential : CredentialConfig
api_credential = record {
  id = "api";
  type = "static-header";
  header = "Authorization";
  value = "k";
  params = [];
}

abbrev pub guarded_rule : RuleConfig
guarded_rule = record {
  name = "api";
  hosts = "api.example.com" ∷ [];
  methods = "post" ∷ [];
  paths = "/v1/*" ∷ [];
  action = "approval";
  credentials = "api" ∷ [];
  services = [];
  approval_note = "writes";
}

abbrev pub open_rule : RuleConfig
open_rule = record {
  name = "rest";
  hosts = "*.example.com" ∷ [];
  methods = [];
  paths = [];
  action = "deny";
  credentials = [];
  services = [];
  approval_note = "";
}

abbrev pub given : Config
given = record {
  server = record {
    mode = "";
    listen = ":8080";
    admin_token = "s3cret";
    approval_timeout = pos 0;
    mitm = record { ca_cert_path = ""; ca_key_path = "" };
    backend_proxy = record { url = "" };
    integrations = record {
      google = record { hosts = [] };
      notion = record { hosts = [] };
      todoist = record { hosts = [] };
      slack = record { hosts = [] };
      github = record { hosts = [] };
    };
    services = [];
    oauth = record {
      listen = "";
      redirect_url = "";
      metadata_url = "";
      metadata_token = "";
      integrations = [];
      google = record {
        credential_id = "";
        client_id = "";
        client_id_secret_ref = "";
        client_secret = "";
        client_secret_ref = "";
        scope = "";
        auth_url = "";
        token_url = "";
        revoke_url = "";
        redirect_url = "";
      };
      notion = record {
        credential_id = "";
        client_id = "";
        client_id_secret_ref = "";
        client_secret = "";
        client_secret_ref = "";
        auth_url = "";
        token_url = "";
        revoke_url = "";
        redirect_url = "";
        notion_version = "";
      };
      todoist = record {
        credential_id = "";
        client_id = "";
        client_id_secret_ref = "";
        client_secret = "";
        client_secret_ref = "";
        scope = "";
        auth_url = "";
        token_url = "";
        revoke_url = "";
        redirect_url = "";
      };
      slack = record {
        credential_id = "";
        client_id = "";
        client_id_secret_ref = "";
        client_secret = "";
        client_secret_ref = "";
        scope = "";
        auth_url = "";
        token_url = "";
        refresh_token_url = "";
        revoke_url = "";
        redirect_url = "";
      };
      github = record {
        credential_id = "";
        client_id = "";
        client_id_secret_ref = "";
        client_secret = "";
        client_secret_ref = "";
        scope = "";
        auth_url = "";
        token_url = "";
        revoke_url = "";
        redirect_url = "";
      };
    };
    secrets = record {
      mode = "sqlite";
      sqlite_path = "";
      envelope_encryption = record {
        provider = "";
        cache_ttl = none;
        cache_max_entries = none;
        encryption_context = [];
        aws_kms = record { key_id = ""; region = "" };
        kms_broker = record { url = ""; token = "" };
      };
      kubernetes = record {
        namespace = "";
        dynamic_users = false;
        dynamic_user_secret_name_prefix = "";
      };
      external = record { webhook = record { url = ""; secret_key = "" } };
    };
    users = [];
  };
  credentials = api_credential ∷ [];
  rules = guarded_rule ∷ open_rule ∷ [];
}

-- The configuration as Validate leaves it.
abbrev pub cfg : Config
cfg = record given {
  server = record given.server {
    mode = "proxy";
    approval_timeout = pos 300000000000;
    mitm = record { ca_cert_path = "data/scia-ca.pem"; ca_key_path = "data/scia-ca-key.pem" };
    secrets = record given.server.secrets { sqlite_path = "data/scia-secrets.db" };
  };
}

pub validate-given : validate platform given ≡ ok cfg
unfolding validate google_has_client_config notion_has_client_config todoist_has_client_config
    slack_has_client_config github_has_client_config
validate-given = refl

abbrev pub target : Url
target = record {
  scheme = "http";
  host = "API.example.com:80";
  path = "/v1/x";
  raw_path = "";
  raw_query = "q=1";
}

abbrev pub request : Request
request = record {
  method = "POST";
  url = some (record target { path = "/v1/a/../x" });
  host = "API.example.com:80";
  header =
      ("Connection", "close" ∷ [])
      ∷ ("Authorization", "Bearer s3cret" ∷ [])
      ∷ ("Accept", "a" ∷ [])
      ∷ [];
  request_uri = "http://API.example.com:80/v1/a/../x?q=1";
}
