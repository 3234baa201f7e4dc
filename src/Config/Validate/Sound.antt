-- ===== src/Config/Validate/Sound.antt =====
-- What Config.Validate establishes of the credentials and the rules.
use scia.Base.{
  ℕ, suc, String, List, [], ◌∷◌, false, ◌==◌, contains, ◌≡◌, ◌≢◌, inl, inr, arith, eq_iff, ok,
  >>-eq-ok, refuse-eq-ok, for_each_sound, All, All_imp, sym, Distinct, Elem, Elem-of_contains,
  ne_of_test, or-false, is_empty_of_ne, ne_of_is_empty,
}
use scia.Config.Types.{CredentialConfig, RuleConfig}
use scia.Config.Validate.Rules.{
  credential_types, check_credential, check_credentials, check_rule_host, check_rule_hosts,
  check_service_reference, check_rule, check_rules,
}
use scia.Go.{trim_space}
use scia.Config.Validate.WellFormed.{credential_ids, IsValidCredential, IsValidRule}

check_credential-IsValid :
    (i : ℕ) (seen : List String) (c : CredentialConfig)
    → check_credential i seen c ≡ ok tt
    → IsValidCredential c × (contains seen c.id ≡ false)
unfolding check_credential
check_credential-IsValid i seen c h = (
  record {
    id = ne_of_test c.id "" (ground arith);
    type = Elem-of_contains credential_types c.type (ground arith);
    header = λ e. ne_of_test c.header "" (ground (arith, eq_iff c.type "static-header"));
  },
  ground arith,
)

check_rule_hosts-facts :
    (r : RuleConfig)
    → check_rule_hosts r ≡ ok tt
    → r.credentials ≢ []
    → (r.hosts ≢ []) × All (λ h. (trim_space h ≢ "") × (trim_space h ≢ "*")) r.hosts
unfolding check_rule_hosts check_rule_host
check_rule_hosts-facts r h k =
    let e = is_empty_of_ne r.credentials k in
    (
      ne_of_is_empty r.hosts (ground arith),
      for_each_sound (check_rule_host r.name) _ r.hosts
          (λ a h.
            let (blank, star) = or-false _ _ (refuse-eq-ok _ _ h) in
            (ne_of_test (trim_space a) "" blank, ne_of_test (trim_space a) "*" star))
          (ground arith),
    )

check_rule-IsValid :
    (known : List String) (i : ℕ) (r : RuleConfig) → check_rule known i r ≡ ok tt → IsValidRule r
unfolding check_rule check_service_reference
check_rule-IsValid known i r h = record {
  name = ne_of_test r.name "" (ground arith);
  action = Elem-of_contains ("allow" ∷ "deny" ∷ "approval" ∷ []) r.action (ground arith);
  hosts = λ k. (check_rule_hosts-facts r (ground arith) k).0;
  plain_hosts = λ k. (check_rule_hosts-facts r (ground arith) k).1;
  services =
      for_each_sound (check_service_reference r.name) _ r.services
        (λ a e. (ne_of_test a "" (ground arith), ground arith)) (ground arith);
}

-- The ids are new, and there are no two alike.
pub check_credentials-IsValid :
    (i : ℕ) (cs : List CredentialConfig) (seen : List String) {out : List String}
    → check_credentials i cs seen ≡ ok out
    → All (λ c. IsValidCredential c × (contains seen c.id ≡ false)) cs
      × Distinct (credential_ids cs)
unfolding check_credentials
check_credentials-IsValid i [] seen h = (tt, tt)
check_credentials-IsValid i (c ∷ cs) seen h =
    let (h₁, r₁) = >>-eq-ok (check_credential i seen c) _ h in
    let (valid, distinct) = check_credentials-IsValid (suc i) cs (c.id ∷ seen) r₁ in
    (
      (
        check_credential-IsValid i seen c h₁,
        All_imp _ _ cs (λ d v. (v.0, (or-false _ _ v.1).1)) valid,
      ),
      (fresh c.id cs (All_imp _ _ cs (λ d v. (or-false _ _ v.1).0) valid), distinct),
    )
  where
    fresh :
        (id : String) (ds : List CredentialConfig)
        → All (λ d. (id == d.id) ≡ false) ds
        → ¬ Elem id (credential_ids ds)
    fresh id [] h m = m
    fresh id (d ∷ ds) (n, h) (inl e) = ne_of_test id d.id n (sym e)
    fresh id (d ∷ ds) (n, h) (inr m) = fresh id ds h m

pub check_rules-IsValid :
    (known : List String) (i : ℕ) (rules : List RuleConfig)
    → check_rules known i rules ≡ ok tt
    → All IsValidRule rules
unfolding check_rules
check_rules-IsValid known i [] h = tt
check_rules-IsValid known i (r ∷ rules) h =
    let (here, later) = >>-eq-ok (check_rule known i r) _ h in
    (check_rule-IsValid known i r here, check_rules-IsValid known (suc i) rules later)
