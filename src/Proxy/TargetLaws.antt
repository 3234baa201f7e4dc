-- ===== src/Proxy/TargetLaws.antt =====
-- internal/proxy/server.go and internal/policy/policy.go: what the proxy's last check on credentials
-- finds behind the policy's decision.
use scia.Base.{
  String, List, [], ◌∷◌, ◌++◌, true, is_empty, is_empty_of_ne, ok, ◌≡◌, ◌≢◌, refl, sym, subst, inl,
  inr, Bool-cases, All, arith, ne_of_is_empty,
}
use scia.Config.Types.{Config, RuleConfig}
use scia.Config.Validate.Main.{IsValidConfig}
use scia.Config.Validate.WellFormed.{IsValidRule}
use scia.Go.Http.{Request}
use scia.Policy.{decide, evaluate, rule_matches, match_host_any, request_path}
use scia.Policy.Laws.{evaluate-IsFirst}
use scia.Proxy.Targets.{validate_credential_injection_target}

-- A property of every rule holds of the one that a list is split at.
All-at :
    (P : RuleConfig → Type 0) (before after : List RuleConfig) (r : RuleConfig)
    → All P (before ++ r ∷ after)
    → P r
All-at P [] after r h = h.0
All-at P (q ∷ before) after r h = All-at P before after r h.1

decide-target :
    (r : RuleConfig) (method host path : String)
    → (r.credentials ≢ [] → r.hosts ≢ [])
    → rule_matches r method host path ≡ true
    → validate_credential_injection_target (decide r) host ≡ ok tt
unfolding validate_credential_injection_target rule_matches
decide-target r method host path h m = elim (Bool-cases (is_empty r.credentials)) [
  | inl e ↦ rw e refl
  | inr e ↦
      let hosts = is_empty_of_ne r.hosts (h (ne_of_is_empty r.credentials e)) in
      let found : match_host_any r.hosts host ≡ true = ground arith in rw (e, hosts, found) refl
]

-- With a configuration that Validate accepts, the proxy's check before it injects credentials never
-- fails: the rule that decides on a request has hosts, and the target is one of them, wherever the
-- rule has credentials.
pub evaluate-validate_credential_injection_target :
    (cfg : Config) (r : Request) (host : String)
    → IsValidConfig cfg
    → validate_credential_injection_target (evaluate cfg r host) host ≡ ok tt
unfolding validate_credential_injection_target
evaluate-validate_credential_injection_target cfg r host v = elim (evaluate-IsFirst cfg r host) [
  | inl (_, e) ↦ subst (λ d. validate_credential_injection_target d host ≡ ok tt) (sym e) refl
  | inr (rule, first, e) ↦
      subst (λ d. validate_credential_injection_target d host ≡ ok tt) (sym e)
        (decide-target rule r.method host (request_path r.url)
          (All-at IsValidRule first.before first.after rule
            (subst (All IsValidRule) first.split v.rules)).hosts
          first.chosen)
]
