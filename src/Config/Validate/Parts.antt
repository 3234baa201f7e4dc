-- ===== src/Config/Validate/Parts.antt =====
-- What a successful run of Config.Validate went through.
use scia.Base.{String, List, [], ◌≡◌, sym, ok, >>=-eq-ok, >>-eq-ok, ok-injective}
use scia.Config.Types.{Config, ServerConfig, ServicesConfig}
use scia.Config.Platform.{Platform}
use scia.Config.Env.{expand_env}
use scia.Config.Validate.Server.{validate_server}
use scia.Config.Validate.Services.{check_services}
use scia.Config.Validate.Rules.{check_credentials, provider_credentials, check_rules, validate}

pub record Parts (p : Platform) (given c : Config) : Type 0 where
  pub server : ServerConfig
  pub seen : List String
  pub services : ServicesConfig
  pub known : List String
  pub server_checked : validate_server p (expand_env p.getenv given).server ≡ ok server
  pub credentials_checked : check_credentials 0 (expand_env p.getenv given).credentials [] ≡ ok seen
  pub services_checked :
      check_services server.services
        (provider_credentials (record (expand_env p.getenv given) { server = server }) seen)
      ≡ ok (services, known)
  pub rules_checked : check_rules known 0 (expand_env p.getenv given).rules ≡ ok tt
  pub result : c ≡ record {
    server = record server { services = services };
    credentials = (expand_env p.getenv given).credentials;
    rules = (expand_env p.getenv given).rules;
  }

pub validate-Parts : (p : Platform) (given c : Config) → validate p given ≡ ok c → Parts p given c
unfolding validate
validate-Parts p given c h =
    let d = expand_env p.getenv given in
    let (server, h₁, r₁) = >>=-eq-ok (validate_server p d.server) _ h in
    let (seen, h₂, r₂) = >>=-eq-ok (check_credentials 0 d.credentials []) _ r₁ in
    let ((services, known), h₃, r₃) =
      >>=-eq-ok
        (check_services server.services (provider_credentials (record d { server = server }) seen))
        _ r₂ in
    let (h₄, r₄) = >>-eq-ok (check_rules known 0 d.rules) _ r₃ in
    record {
      server = server;
      seen = seen;
      services = services;
      known = known;
      server_checked = h₁;
      credentials_checked = h₂;
      services_checked = h₃;
      rules_checked = h₄;
      result = sym (ok-injective r₄);
    }
