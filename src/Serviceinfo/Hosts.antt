-- ===== src/Serviceinfo/Hosts.antt =====
-- internal/serviceinfo/serviceinfo.go: which host rule of a service applies to a request.
use Prim.Native.String.{len}
use scia.Base.{
  String, List, [], ◌∷◌, Bool, true, false, not, ◌&&◌, ◌||◌, ◌==◌, Option, none, some,
  if◌then◌else◌, ltb,
}
use scia.Config.Types.{ServiceConfig, ServiceHostRule}
use scia.Config.Ids.{is_set}
use scia.Go.{to_lower, has_suffix, has_prefix, host_only}

-- The suffix of a rule, which a host must be longer than.
abbrev pub suffix_matches : String → String → Bool
suffix_matches host_only suffix =
    has_suffix host_only (to_lower suffix) && ltb (len (to_lower suffix)) (len host_only)

-- One round of HostRule's loop goes on to the next rule.
abbrev pub skips : ServiceHostRule → String → String → Bool
skips rule host path =
    if is_set rule.host && not (to_lower rule.host == host)
    then true
    else if is_set rule.host_suffix && not (suffix_matches host rule.host_suffix)
    then true
    else is_set rule.path_prefix && not (has_prefix path rule.path_prefix)

unfoldable pub first_rule : List ServiceHostRule → String → String → Option ServiceHostRule
first_rule [] host path = none
first_rule (rule ∷ rules) host path =
    let rest = first_rule rules host path in if skips rule host path then rest else some rule

-- HostRule
unfoldable pub host_rule : ServiceConfig → String → String → Option ServiceHostRule
unfolding first_rule
host_rule service host path = first_rule service.hosts (host_only (to_lower host)) path

-- One round of HostMatches' loop returns.
abbrev pub accepts : ServiceHostRule → String → Bool
accepts rule host =
    is_set rule.host && to_lower rule.host == host
    || is_set rule.host_suffix && suffix_matches host rule.host_suffix

unfoldable pub any_accepts : List ServiceHostRule → String → Bool
any_accepts [] host = false
any_accepts (rule ∷ rules) host = accepts rule host || any_accepts rules host

-- HostMatches
unfoldable pub host_matches : ServiceConfig → String → Bool
unfolding any_accepts
host_matches service host = any_accepts service.hosts (host_only (to_lower host))
