-- ===== src/Config/Validate/References.antt =====
-- Every credential that a rule of a validated configuration names can be looked up.
use scia.Base.{
  ℕ, suc, String, List, [], ◌∷◌, Bool, true, false, ◌||◌, ◌&&◌, ◌==◌, contains, ◌≡◌, refl, ◌⊎◌,
  arith, Result, ok, >>=-eq-ok, >>-eq-ok, guard-eq-ok, for_each_sound, All, All_imp, subst, sym,
  Option, some, none, ==_symm,
}
use scia.Config.Types.{
  Config, ServerConfig, CredentialConfig, RuleConfig, ServiceConfig, ServicesConfig,
}
use scia.Config.Platform.{Platform}
use scia.Config.Env.{expand_env}
use scia.Config.Ids.{
  google_oauth_credential_id, notion_oauth_credential_id, todoist_oauth_credential_id,
  slack_oauth_credential_id, github_oauth_credential_id,
}
use scia.Config.Lookup.{
  find_credential, provider_credential, find_by_credential, service_by_credential_id,
  credential_by_id, or_else,
}
use scia.Config.Validate.Services.{check_service, check_services, note_credential}
use scia.Config.Validate.Parts.{Parts, validate-Parts}
use scia.Config.Validate.Rules.{
  add_if, check_credential, check_credentials, provider_credentials, check_reference, check_rule,
  check_rules, validate,
}
use scia.Go.{is_some}

found-credential :
    (i : ℕ) (cs : List CredentialConfig) (seen : List String) {out : List String} (id : String)
    → check_credentials i cs seen ≡ ok out
    → contains out id ≡ true
    → (is_some (find_credential id cs) ≡ true) ⊎ (contains seen id ≡ true)
unfolding check_credentials find_credential
found-credential i [] seen id h k = ground arith
found-credential i (c ∷ cs) seen {out} id h k =
    let (_, h₁) = >>-eq-ok (check_credential i seen c) _ h in
    ground (arith, found-credential (suc i) cs (c.id ∷ seen) {out = out} id h₁ k)

contains-add_if :
    (b : Bool) (x : String) (seen : List String) (id : String)
    → contains (add_if b x seen) id ≡ (b && (id == x) || contains seen id)
contains-add_if true x seen id = rw (==_symm x id)
contains-add_if false x seen id = refl

found-provider :
    (c : Config) (seen : List String) (id : String)
    → contains (provider_credentials c seen) id ≡ true
    → (is_some (provider_credential c id) ≡ true) ⊎ (contains seen id ≡ true)
unfolding provider_credentials provider_credential
found-provider c seen id h = let h' = simp contains-add_if at h in ground arith

service_found-cons :
    (key id : String) (s : ServiceConfig) (rest checked : ServicesConfig)
    (known' known seen : List String)
    → ◌≡◌ {A = Result (ServicesConfig × List String)}
        (ok ((key, s) ∷ rest, known'))
        (ok (checked, known))
    → (is_some (find_by_credential id rest) ≡ true)
      ⊎ (contains (note_credential s.oauth seen) id ≡ true)
    → (is_some (find_by_credential id checked) ≡ true) ⊎ (contains seen id ≡ true)
unfolding find_by_credential
service_found-cons key id s rest checked known' known seen h k = ground arith

found-service :
    (services : ServicesConfig) (seen : List String) {checked : ServicesConfig}
    {known : List String} (id : String)
    → check_services services seen ≡ ok (checked, known)
    → contains known id ≡ true
    → (is_some (find_by_credential id checked) ≡ true) ⊎ (contains seen id ≡ true)
unfolding check_services
found-service [] seen id h k = ground arith
found-service ((key, service) ∷ services) seen {checked} {known} id h k =
    let (s', _, h₁) = >>=-eq-ok (check_service key service) _ h in
    let ((rest, known'), h₂, h₃) =
      >>=-eq-ok (check_services services (note_credential s'.oauth seen)) _ h₁ in
    service_found-cons key id s' rest checked known' known seen h₃
      (found-service services (note_credential s'.oauth seen) id h₂ (ground arith))

rule-known :
    (known : List String) (i : ℕ) (r : RuleConfig)
    → check_rule known i r ≡ ok tt
    → All (λ id. contains known id ≡ true) r.credentials
unfolding check_rule
rule-known known i r h =
    for_each_sound (check_reference known r.name) (λ id. contains known id ≡ true) r.credentials
      (λ id e. guard-eq-ok _ _ e) (ground arith)

-- The rules were checked against the set of known ids.
rules-known :
    (known : List String) (i : ℕ) (rules : List RuleConfig)
    → check_rules known i rules ≡ ok tt
    → All (λ r. All (λ id. contains known id ≡ true) r.credentials) rules
unfolding check_rules
rules-known known i [] h = tt
rules-known known i (r ∷ rs) h =
    let (here, later) = >>-eq-ok (check_rule known i r) _ h in
    (rule-known known i r here, rules-known known (suc i) rs later)

is_some-or_else {ℓ} :
    {A : Type ℓ} (a b : Option A) → is_some (or_else a b) ≡ (is_some a || is_some b)
is_some-or_else none b = refl
is_some-or_else (some a) b = refl

is_some-credential_by_id :
    (c : Config) (id : String)
    → is_some (credential_by_id c id) ≡ (
        is_some (find_credential id c.credentials)
        || (is_some (provider_credential c id)
            || is_some (find_by_credential id c.server.services)))
unfolding credential_by_id service_by_credential_id
is_some-credential_by_id c id = rw (is_some-or_else, is_some-or_else) (ground arith)

-- The providers' credentials do not depend on the services.
provider_credential-services :
    (server : ServerConfig) (creds : List CredentialConfig) (rules : List RuleConfig)
    (services : ServicesConfig) (id : String)
    → provider_credential
        (record {
          server = record server { services = services };
          credentials = creds;
          rules = rules;
        })
        id
      ≡ provider_credential (record { server = server; credentials = creds; rules = rules }) id
unfolding provider_credential google_oauth_credential_id notion_oauth_credential_id
    todoist_oauth_credential_id slack_oauth_credential_id github_oauth_credential_id
provider_credential-services server creds rules services id = refl

known-found :
    (p : Platform) (given c : Config) (v : Parts p given c) (id : String)
    → contains v.known id ≡ true
    → is_some (credential_by_id c id) ≡ true
known-found p given c v id h =
    rw (v.result, is_some-credential_by_id, provider_credential-services)
      (ground (
        arith,
        found-service v.server.services _ id v.services_checked h,
        found-provider (record (expand_env p.getenv given) { server = v.server }) v.seen id,
        found-credential 0 (expand_env p.getenv given).credentials [] id v.credentials_checked,
      ))

-- Every credential that a rule of a validated configuration names is found by CredentialByID.
pub validate-credential_by_id :
    (p : Platform) (given c : Config)
    → validate p given ≡ ok c
    → All (λ r. All (λ id. is_some (credential_by_id c id) ≡ true) r.credentials) c.rules
validate-credential_by_id p given c h =
    let v = validate-Parts p given c h in
    All_imp _ _ c.rules (λ r. All_imp _ _ r.credentials (λ id k. known-found p given c v id k))
      (subst (λ d. All (λ r. All (λ id. contains v.known id ≡ true) r.credentials) d.rules)
        (sym v.result) (rules-known v.known 0 _ v.rules_checked))
