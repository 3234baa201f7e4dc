-- ===== src/Proxy/Targets.antt =====
-- internal/proxy/server.go: tests on a request's target. net.ParseIP is a parameter.
use scia.Base.{
  String, List, [], ◌∷◌, ◌++◌, append, Bool, true, false, not, ◌||◌, ◌==◌, is_empty, any, Option,
  none, some, Result, ok, err, errorf, str, if◌then◌else◌,
}
use scia.Config.Types.{Config, ServicesConfig, ServiceHostRule}
use scia.Config.Ids.{is_set}
use scia.Go.{
  to_lower, trim_space, trim_suffix, trim_prefix, has_prefix, has_char, split_host_port, host_only,
  path_match, trim_brackets,
}
use scia.Policy.{Decision, match_host_any}

-- What the source asks of a net.IP: IsLoopback, IsUnspecified, and whether To4()[0] is 127.
pub record Ip : Type 0 where
  pub is_loopback : Bool
  pub is_unspecified : Bool
  pub starts_127 : Bool

-- normalizeSelfTargetHost
unfoldable pub normalize_self_target_host : String → String
normalize_self_target_host host = trim_suffix (to_lower (trim_space host)) "."

-- defaultListenAddr
unfoldable pub default_listen_addr : String → String
default_listen_addr addr = if trim_space addr == "" then ":8080" else addr

-- portFromHost
unfoldable pub scheme_port : String → String
scheme_port scheme = if scheme == "http" then "80" else if scheme == "https" then "443" else ""

unfoldable pub port_from_host : String → String → String
unfolding scheme_port
port_from_host host scheme = elim (split_host_port host) [
  | some (_, port) ↦ port
  | none ↦
      if has_prefix host ":"
      then trim_prefix host ":"
      else if has_char host b':'
      then ""
      else scheme_port scheme
]

-- The test of isProxySelfTarget on the host, for a target on the proxy's port.
abbrev own_ip : Option Ip → Bool
own_ip none = false
own_ip (some ip) = ip.is_loopback || ip.is_unspecified || ip.starts_127

unfoldable pub is_own_host : (String → Option Ip) → String → Bool
unfolding trim_brackets
is_own_host parse_ip host =
    if host == "" || host == "localhost" then true else own_ip (parse_ip (trim_brackets host))

-- isProxySelfTarget
unfoldable pub is_proxy_self_target : (String → Option Ip) → String → String → String → Bool
unfolding port_from_host default_listen_addr is_own_host normalize_self_target_host
is_proxy_self_target parse_ip listen target_host scheme =
    let port = port_from_host (default_listen_addr listen) "" in
    if port == ""
    then false
    else if not (port_from_host target_host scheme == port)
    then false
    else is_own_host parse_ip (normalize_self_target_host (host_only target_host))

-- validateCredentialInjectionTarget
unfoldable pub validate_credential_injection_target : Decision → String → Result (Unit {0})
unfolding match_host_any
validate_credential_injection_target d target_host =
    if is_empty d.credentials
    then ok tt
    else if is_empty d.rule.hosts
    then err (errorf "rule %q has credentials without hosts" (str d.rule.name ∷ []))
    else if not (match_host_any d.rule.hosts target_host)
    then err (
        errorf "rule %q credentials do not match target host %q"
          (str d.rule.name ∷ str target_host ∷ []))
    else ok tt

-- mitmHostAllowed
abbrev mitm_match : String → String → Bool
mitm_match pattern host =
    path_match (to_lower pattern) host
    || path_match (to_lower pattern) (host_only host)
    || to_lower pattern == host
    || to_lower pattern == host_only host

unfoldable pub mitm_host_allowed : List String → String → Bool
mitm_host_allowed patterns host =
    if is_empty patterns then true else any (λ p. mitm_match p (to_lower host)) patterns

-- The patterns of one host rule in integrationMITMHosts.
abbrev host_patterns : ServiceHostRule → List String
host_patterns r =
    (if is_set r.host then r.host ∷ [] else [])
    ++ (if is_set r.host_suffix then append "*" r.host_suffix ∷ [] else [])

unfoldable pub rule_patterns : List ServiceHostRule → List String
rule_patterns [] = []
rule_patterns (r ∷ rules) = host_patterns r ++ rule_patterns rules

unfoldable pub service_patterns : ServicesConfig → List String
unfolding rule_patterns
service_patterns [] = []
service_patterns ((id, s) ∷ services) = rule_patterns s.hosts ++ service_patterns services

-- integrationMITMHosts
unfoldable pub integration_mitm_hosts : Config → List String
unfolding service_patterns
integration_mitm_hosts cfg =
    cfg.server.integrations.google.hosts
    ++ cfg.server.integrations.notion.hosts
    ++ cfg.server.integrations.todoist.hosts
    ++ service_patterns cfg.server.services
