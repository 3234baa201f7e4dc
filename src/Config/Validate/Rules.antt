-- ===== src/Config/Validate/Rules.antt =====
-- Config.Validate: the credentials and the rules, and the whole.
use scia.Base.{
  ℕ, suc, String, List, [], ◌∷◌, Bool, not, ◌&&◌, ◌||◌, ◌==◌, is_empty, contains, Result, ok, ◌>>◌,
  ◌>>=◌, refuse, guard, errorf, str, int, if◌then◌else◌, for_each,
}
use scia.Config.Types.{Config, CredentialConfig, RuleConfig}
use scia.Config.Platform.{Platform}
use scia.Config.Env.{expand_env}
use scia.Config.Names.{valid_service_id}
use scia.Config.Ids.{
  google_oauth_credential_id, notion_oauth_credential_id, todoist_oauth_credential_id,
  slack_oauth_credential_id, github_oauth_credential_id, google_has_client_config,
  notion_has_client_config, todoist_has_client_config, slack_has_client_config,
  github_has_client_config,
}
use scia.Config.Validate.Server.{validate_server}
use scia.Config.Validate.Services.{check_services}
use scia.Go.{trim_space}

abbrev pub credential_types : List String
credential_types =
    "bearer" ∷ "basic" ∷ "static-header" ∷ "oauth2-client-credentials"
    ∷ "google-oauth-refresh-token" ∷ "notion-oauth-refresh-token" ∷ "todoist-oauth-refresh-token"
    ∷ "slack-user-oauth-token" ∷ "github-oauth-token" ∷ "generic-oauth" ∷ []

-- One round of the loop over the credentials.
unfoldable pub check_credential : ℕ → List String → CredentialConfig → Result (Unit {0})
check_credential i seen cred = do
  refuse (cred.id == "") (errorf "credentials[%d].id is required" (int i ∷ []))
  refuse (contains seen cred.id) (errorf "duplicate credential id %q" (str cred.id ∷ []))
  guard (contains credential_types cred.type)
      (errorf "credential %q has unsupported type %q" (str cred.id ∷ str cred.type ∷ []))
  refuse (cred.type == "static-header" && cred.header == "")
      (errorf "credential %q requires header" (str cred.id ∷ []))

-- The loop; the result is the set of the ids.
unfoldable pub check_credentials : ℕ → List CredentialConfig → List String → Result (List String)
unfolding check_credential
check_credentials i [] seen = ok seen
check_credentials i (cred ∷ creds) seen = do
  check_credential i seen cred
  check_credentials (suc i) creds (cred.id ∷ seen)

abbrev pub add_if : Bool → String → List String → List String
add_if b id seen = if b then id ∷ seen else seen

-- The ids of the providers whose clients are configured.
unfoldable pub provider_credentials : Config → List String → List String
provider_credentials c seen =
    add_if (github_has_client_config c.server.oauth.github) (github_oauth_credential_id c) (
      add_if (slack_has_client_config c.server.oauth.slack) (slack_oauth_credential_id c) (
        add_if (todoist_has_client_config c.server.oauth.todoist) (todoist_oauth_credential_id c) (
          add_if (notion_has_client_config c.server.oauth.notion) (notion_oauth_credential_id c) (
            add_if (google_has_client_config c.server.oauth.google) (google_oauth_credential_id c)
              seen))))

unfoldable pub check_reference : List String → String → String → Result (Unit {0})
check_reference seen rule id =
    guard (contains seen id)
      (errorf "rule %q references unknown credential %q" (str rule ∷ str id ∷ []))

unfoldable pub check_rule_host : String → String → Result (Unit {0})
unfolding trim_space
check_rule_host rule host =
    refuse (trim_space host == "" || trim_space host == "*")
      (errorf "rule %q with credentials must not use wildcard host %q" (str rule ∷ str host ∷ []))

unfoldable pub check_service_reference : String → String → Result (Unit {0})
unfolding valid_service_id
check_service_reference rule id =
    refuse (id == "" || not (valid_service_id id))
      (errorf "rule %q references invalid service %q" (str rule ∷ str id ∷ []))

-- The hosts of a rule with credentials.
unfoldable pub check_rule_hosts : RuleConfig → Result (Unit {0})
unfolding check_rule_host
check_rule_hosts rule =
    if is_empty rule.credentials
    then ok tt
    else refuse (is_empty rule.hosts)
        (errorf "rule %q with credentials requires hosts" (str rule.name ∷ []))
      >> for_each (check_rule_host rule.name) rule.hosts

-- One round of the loop over the rules.
unfoldable pub check_rule : List String → ℕ → RuleConfig → Result (Unit {0})
unfolding check_reference check_rule_hosts check_service_reference
check_rule known i rule = do
  refuse (rule.name == "") (errorf "rules[%d].name is required" (int i ∷ []))
  guard (contains ("allow" ∷ "deny" ∷ "approval" ∷ []) rule.action)
      (errorf "rule %q has unsupported action %q" (str rule.name ∷ str rule.action ∷ []))
  for_each (check_reference known rule.name) rule.credentials
  check_rule_hosts rule
  for_each (check_service_reference rule.name) rule.services

unfoldable pub check_rules : List String → ℕ → List RuleConfig → Result (Unit {0})
unfolding check_rule
check_rules known i [] = ok tt
check_rules known i (rule ∷ rules) = do check_rule known i rule; check_rules known (suc i) rules

-- Config.Validate: the configuration as Validate leaves it, or the first error.
unfoldable pub validate : Platform → Config → Result Config
unfolding expand_env validate_server check_credentials provider_credentials check_services
    check_rules
validate p given = do
  let c = expand_env p.getenv given
  server ← validate_server p c.server
  let c' = record c { server = server }
  seen ← check_credentials 0 c'.credentials []
  (services, known) ← check_services server.services (provider_credentials c' seen)
  check_rules known 0 c'.rules
  ok (record c' { server = record server { services = services } })
