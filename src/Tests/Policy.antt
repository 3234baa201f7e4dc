-- ===== src/Tests/Policy.antt =====
-- internal/policy/policy.go on concrete input.
use scia.Base.{true, false, ◌≡◌, ◌↔◌, ◌⊎◌, refl, All}
use scia.Config.Types.{RuleConfig}
use scia.Go.{to_lower}
use scia.Policy.{Decision, decide, allow, rule_matches, evaluate, request_path}
use scia.Policy.Laws.{IsFirst, evaluate-IsFirst, Covers, rule_matches_iff, evaluate-to_lower}
use scia.Tests.Fixture.{cfg, request, target, guarded_rule}

-- Case and port of the host do not matter, and the path is cleaned first.
evaluate-request : evaluate cfg request target.host ≡ decide guarded_rule
unfolding evaluate rule_matches scia.Policy.contains_fold scia.Go.equal_fold
    scia.Policy.match_host_any scia.Policy.match_one scia.Go.path_match scia.Go.has_suffix
    scia.Go.host_only scia.Policy.match_any scia.Config.Request.normalize_path
evaluate-request = refl

evaluate-IsFirst_example :
    (All
        (λ q. rule_matches q request.method target.host (request_path request.url) ≡ false)
        cfg.rules
      × (evaluate cfg request target.host ≡ allow))
    ⊎ ((rule : RuleConfig) × IsFirst
          (λ q. rule_matches q request.method target.host (request_path request.url))
          cfg.rules
          rule
        × (evaluate cfg request target.host ≡ decide rule))
evaluate-IsFirst_example = evaluate-IsFirst cfg request target.host

rule_matches_iff_example :
    (rule_matches guarded_rule "POST" "api.example.com" "/v1/x" ≡ true)
    ↔ Covers guarded_rule "POST" "api.example.com" "/v1/x"
rule_matches_iff_example = rule_matches_iff guarded_rule "POST" "api.example.com" "/v1/x"

evaluate-to_lower_example :
    evaluate cfg request (to_lower target.host) ≡ evaluate cfg request target.host
evaluate-to_lower_example = evaluate-to_lower cfg request target.host
