-- ===== src/Policy.antt =====
-- internal/policy/policy.go: the rule that decides on a request.
pub mod Laws
use scia.Base.{
  String, List, [], ◌∷◌, Bool, true, false, not, ◌&&◌, ◌||◌, ◌==◌, any, is_empty, Option, none,
  some, if◌then◌else◌,
}
use scia.Config.Types.{Config, RuleConfig}
use scia.Config.Request.{normalize_path}
use scia.Go.{to_lower, equal_fold, has_suffix, has_prefix, trim_suffix, host_only, path_match}
use scia.Go.Http.{Request, Url}

pub record Decision : Type 0 where
  pub rule : RuleConfig
  pub action : String
  pub credentials : List String
  pub services : List String

-- RuleConfig{}
abbrev pub no_rule : RuleConfig
no_rule = record {
  name = "";
  hosts = [];
  methods = [];
  paths = [];
  action = "";
  credentials = [];
  services = [];
  approval_note = "";
}

-- matchOne
unfoldable pub match_one : String → String → Bool
match_one pattern value =
    let p = to_lower pattern in
    if path_match p value
    then true
    else if has_suffix p "/*" && has_prefix value (trim_suffix p "*")
    then true
    else p == value

-- MatchHostAny: a pattern matches the host with its port or without.
unfoldable pub match_host_any : List String → String → Bool
match_host_any patterns host =
    let normalized = to_lower host in
    any (λ p. match_one p normalized || match_one p (host_only normalized)) patterns

-- matchAny
unfoldable pub match_any : List String → String → Bool
match_any patterns value = any (λ p. match_one p (to_lower value)) patterns

-- containsFold
unfoldable pub contains_fold : List String → String → Bool
contains_fold values target = any (λ v. equal_fold v target) values

-- ruleMatches
unfoldable pub rule_matches : RuleConfig → String → String → String → Bool
rule_matches rule method host path =
    if not (is_empty rule.methods) && not (contains_fold rule.methods method)
    then false
    else if not (is_empty rule.hosts) && not (match_host_any rule.hosts host)
    then false
    else if not (is_empty rule.paths) && not (match_any rule.paths path)
    then false
    else true

abbrev pub decide : RuleConfig → Decision
decide r = record {
  rule = r;
  action = r.action;
  credentials = r.credentials;
  services = r.services;
}

abbrev pub allow : Decision
allow = record { rule = no_rule; action = "allow"; credentials = []; services = [] }

-- The loop of Evaluate.
unfoldable pub first_match : List RuleConfig → String → String → String → Decision
first_match [] method host path = allow
first_match (r ∷ rules) method host path =
    if rule_matches r method host path then decide r else first_match rules method host path

abbrev pub request_path : Option Url → String
request_path none = "/"
request_path (some u) = normalize_path u.path

-- Evaluate
unfoldable pub evaluate : Config → Request → String → Decision
unfolding first_match
evaluate cfg r target_host = first_match cfg.rules r.method target_host (request_path r.url)
