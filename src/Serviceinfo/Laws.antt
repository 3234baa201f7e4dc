-- ===== src/Serviceinfo/Laws.antt =====
-- internal/serviceinfo/serviceinfo.go: what is shown of the host rules and of the index.
use Prim.Native.String.{len}
use scia.Base.{
  ℕ, String, List, [], ◌∷◌, Bool, true, false, ◌||◌, ◌==◌, is_empty, some, ok, >>=-eq-ok, >>-eq-ok,
  ok-injective, refuse, if◌then◌else◌, ◌≡◌, inl, inr, sym, ◌≢◌, ◌<◌, Any, eq_iff, test_of_ne, subst,
  ◌∙◌, arith, All, Bool-cases, traverse_from_sound, traverse_from, for_each_from,
}
use scia.Config.Types.{ServiceConfig, ServiceHostRule}
use scia.Config.Ids.{is_set}
use scia.Config.Inputs.{validate_service_inputs}
use scia.Config.Platform.{Platform}
use scia.Go.{is_some, to_lower, host_only, has_suffix, has_prefix}
use scia.Serviceinfo.Hosts.{skips, accepts, first_rule, host_rule, any_accepts, host_matches}
use scia.Serviceinfo.Normalize.{normalize, normalize_host, normalize_oauth?, normalize_template}

-- A rule names a host or a suffix.
abbrev pub NamesHost : ServiceHostRule → Type 0
NamesHost r = (is_set r.host || is_set r.host_suffix) ≡ true

accepts_of_not-skips :
    (r : ServiceHostRule) (host path : String)
    → NamesHost r
    → skips r host path ≡ false
    → accepts r host ≡ true
accepts_of_not-skips r host path n h = ground arith

first_rule-any_accepts :
    (rules : List ServiceHostRule) (host path : String) (r : ServiceHostRule)
    → All NamesHost rules
    → first_rule rules host path ≡ some r
    → any_accepts rules host ≡ true
unfolding first_rule any_accepts
first_rule-any_accepts [] host path r a h = cc
first_rule-any_accepts (q ∷ rules) host path r (n, a) h = elim (Bool-cases (skips q host path)) [
  | inl e ↦
      let later =
        first_rule-any_accepts rules host path r a
          ((λ i. if sym e i then first_rule rules host path else some q) ∙ h) in
      ground arith
  | inr e ↦ let now = accepts_of_not-skips q host path n e in ground arith
]

-- The rule fits a host, in lower case and without its port, and a path: each of its parts that is set
-- does.
pub record Fits (r : ServiceHostRule) (host path : String) : Type 0 where
  pub host_fits : r.host ≢ "" → to_lower r.host ≡ host
  pub suffix_fits :
      r.host_suffix ≢ ""
      → (has_suffix host (to_lower r.host_suffix) ≡ true)
        × (len (to_lower r.host_suffix) < len host)
  pub path_fits : r.path_prefix ≢ "" → has_prefix path r.path_prefix ≡ true

skips-Fits :
    (r : ServiceHostRule) (host path : String) → skips r host path ≡ false → Fits r host path
skips-Fits r host path h = record {
  host_fits =
      λ n. let e = test_of_ne r.host "" n in (eq_iff (to_lower r.host) host).0 (ground arith);
  suffix_fits = λ n. let e = test_of_ne r.host_suffix "" n in (ground arith, ground arith);
  path_fits = λ n. let e = test_of_ne r.path_prefix "" n in ground arith;
}

first_rule-Fits :
    (rules : List ServiceHostRule) (host path : String) (r : ServiceHostRule)
    → first_rule rules host path ≡ some r
    → Any (λ q. q ≡ r) rules × Fits r host path
unfolding first_rule
first_rule-Fits [] host path r h = cc
first_rule-Fits (q ∷ rules) host path r h = elim (Bool-cases (skips q host path)) [
  | inl e ↦
      let (listed, fits) =
        first_rule-Fits rules host path r
          ((λ i. if sym e i then first_rule rules host path else some q) ∙ h) in
      (inr listed, fits)
  | inr e ↦
      let same : q ≡ r =
        some-eq ((λ i. if sym e i then first_rule rules host path else some q) ∙ h) in
      (inl same, subst (λ x. Fits x host path) same (skips-Fits q host path e))
]
  where
    some-eq : {a b : ServiceHostRule} → some a ≡ some b → a ≡ b
    some-eq h = cc

-- The rule that HostRule finds is one of the service's, and it fits the host and the path.
pub host_rule-Fits :
    (s : ServiceConfig) (host path : String) (r : ServiceHostRule)
    → host_rule s host path ≡ some r
    → Any (λ q. q ≡ r) s.hosts × Fits r (host_only (to_lower host)) path
unfolding host_rule
host_rule-Fits s host path r h = first_rule-Fits s.hosts (host_only (to_lower host)) path r h

normalize_host-NamesHost :
    (id : String) (oauth : Bool) (i : ℕ) (given r : ServiceHostRule)
    → normalize_host id oauth i given ≡ ok r
    → NamesHost r
unfolding normalize_host
normalize_host-NamesHost id oauth i given r h = ground arith

normalize-NamesHost :
    (p : Platform) (id : String) (given s : ServiceConfig)
    → normalize p id given ≡ ok s
    → All NamesHost s.hosts
unfolding normalize
normalize-NamesHost p id given s h =
    let (_, h₁) = >>-eq-ok (refuse (id == "") _) _ h in
    let (_, h₂) = >>-eq-ok (refuse (is_empty given.hosts) _) _ h₁ in
    let (hosts, e, h₃) =
      >>=-eq-ok (traverse_from (normalize_host id (is_some given.oauth)) 0 given.hosts) _ h₂ in
    let (oauth, _, h₄) = >>=-eq-ok (normalize_oauth? p id given.oauth) _ h₃ in
    let (_, h₅) =
      >>-eq-ok (for_each_from (normalize_template id "injection.headers") 0 given.injection.headers)
        _ h₄ in
    let (_, h₆) =
      >>-eq-ok (for_each_from (normalize_template id "injection.query") 0 given.injection.query) _
        h₅ in
    let (_, h₇) =
      >>-eq-ok (validate_service_inputs id (record given { hosts = hosts; oauth = oauth })) _ h₆ in
    subst (λ t. All NamesHost t.hosts) (ok-injective h₇)
      (traverse_from_sound _ NamesHost 0 given.hosts
        (λ j a b. normalize_host-NamesHost id (is_some given.oauth) j a b) e)

-- A request for which a normalized service has a host rule goes to a host of the service: HostMatches,
-- which decides on interception, holds where HostRule, which decides on injection, finds a rule.
pub host_rule-host_matches :
    (p : Platform) (id : String) (given s : ServiceConfig) (host path : String)
    (r : ServiceHostRule)
    → normalize p id given ≡ ok s
    → host_rule s host path ≡ some r
    → host_matches s host ≡ true
unfolding host_rule host_matches
host_rule-host_matches p id given s host path r n h =
    first_rule-any_accepts s.hosts (host_only (to_lower host)) path r
      (normalize-NamesHost p id given s n) h
