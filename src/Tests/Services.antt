-- ===== src/Tests/Services.antt =====
-- internal/serviceinfo/serviceinfo.go on concrete input.
use scia.Base.{String, [], ◌∷◌, true, none, some, ok, ◌≡◌, refl}
use scia.Config.Types.{ServiceConfig, ServiceHostRule}
use scia.Serviceinfo.Hosts.{host_rule, host_matches}
use scia.Serviceinfo.Index.{distinct_ids}
use scia.Serviceinfo.IndexLaws.{IsIndex, distinct_ids-IsIndex}
use scia.Serviceinfo.Laws.{host_rule-host_matches}
use scia.Serviceinfo.Normalize.{normalize}
use scia.Tests.Fixture.{platform}

abbrev rule : String → ServiceHostRule
rule method = record {
  host = "";
  host_suffix = ".Example.com";
  path_prefix = "/v1";
  auth_method = method;
  credential_host_field = "";
}

abbrev service : String → ServiceConfig
service method = record {
  name = "n";
  icon_url = "";
  description = "";
  released = none;
  hosts = rule method ∷ [];
  inputs = [];
  oauth = none;
  injection = record { headers = []; query = [] };
}

normalized : normalize platform "svc" (service "") ≡ ok (service "none")
unfolding normalize
normalized = refl

found : host_rule (service "none") "A.example.COM:443" "/v1/x" ≡ some (rule "none")
unfolding host_rule scia.Go.has_suffix scia.Go.host_only scia.Go.to_lower scia.Go.has_prefix
found = refl

host_rule-host_matches_example : host_matches (service "none") "A.example.COM:443" ≡ true
host_rule-host_matches_example =
    host_rule-host_matches platform "svc" (service "") (service "none") "A.example.COM:443" "/v1/x"
      (rule "none") normalized found

distinct_ids-IsIndex_example :
    IsIndex (" a " ∷ "b" ∷ "a" ∷ "" ∷ []) (distinct_ids [] (" a " ∷ "b" ∷ "a" ∷ "" ∷ []))
distinct_ids-IsIndex_example = distinct_ids-IsIndex (" a " ∷ "b" ∷ "a" ∷ "" ∷ [])
