-- ===== src/Config/Validate/Main.antt =====
-- The headline of Config.Validate.
use scia.Base.{[], ◌≡◌, ok, All, All_imp, Distinct, subst, sym}
use scia.Config.Types.{Config}
use scia.Config.Platform.{Platform}
use scia.Config.Validate.Endpoints.{HasEndpoints, validate_server-HasEndpoints}
use scia.Config.Validate.Rules.{validate}
use scia.Config.Validate.Parts.{validate-Parts}
use scia.Config.Validate.WellFormed.{credential_ids, IsValidCredential, IsValidRule, IsValidService}
use scia.Config.Validate.ServiceSound.{check_services-IsValid}
use scia.Config.Validate.Sound.{check_credentials-IsValid, check_rules-IsValid}
use scia.Config.Validate.ServerSound.{IsValidServer, validate_server-IsValid}

pub record IsValidConfig (c : Config) : Type 0 where
  pub server : IsValidServer c.server
  pub credentials : All IsValidCredential c.credentials
  pub distinct : Distinct (credential_ids c.credentials)
  pub services : All (λ e. IsValidService e.0 e.1) c.server.services
  pub rules : All IsValidRule c.rules

-- A configuration that Validate accepts is well formed, as Validate leaves it: the modes are known
-- and the secret store's settings fit them, the credentials have distinct ids and known types, and
-- every service and rule is valid. With the variables of the environment in place, an external store
-- has an http or https URL with a host and a key, a key broker has such a URL, every provider of
-- encryption has the broker's token, and the URLs of the backend proxy and of the service metadata are
-- empty or such URLs.
pub validate-IsValid :
    (p : Platform) (given c : Config)
    → validate p given ≡ ok c
    → IsValidConfig c × HasEndpoints p c.server
validate-IsValid p given c h =
    let v = validate-Parts p given c h in
    let (credentials, distinct) = check_credentials-IsValid 0 _ [] v.credentials_checked in
    let server = validate_server-IsValid p _ v.server v.server_checked in
    let ends = validate_server-HasEndpoints p _ v.server v.server_checked in
    subst (λ d. IsValidConfig d × HasEndpoints p d.server) (sym v.result)
      (
        record {
          server = record {
            mode = server.mode;
            approval = server.approval;
            secrets_mode = server.secrets_mode;
            sqlite_path = server.sqlite_path;
            envelope = server.envelope;
            kubernetes = server.kubernetes;
          };
          credentials = All_imp _ _ _ (λ d w. w.0) credentials;
          distinct = distinct;
          services = check_services-IsValid v.server.services _ v.services_checked;
          rules = check_rules-IsValid v.known 0 _ v.rules_checked;
        },
        record {
          external = ends.external;
          broker = ends.broker;
          broker_token = ends.broker_token;
          backend_proxy = ends.backend_proxy;
          metadata = ends.metadata;
        },
      )
