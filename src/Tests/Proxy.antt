-- ===== src/Tests/Proxy.antt =====
-- internal/proxy/server.go on concrete input.
use scia.Base.{ℕ, suc, String, [], ◌∷◌, true, false, none, some, ok, ◌≡◌, refl, subst}
use scia.Approval.{new_manager, set_waiter, start}
use scia.Config.Types.{ServiceConfig}
use scia.Config.Validate.Main.{validate-IsValid}
use scia.Config.Request.{admin_token, is_authorized_bearer_token}
use scia.Go.Http.{Request}
use scia.Policy.{evaluate}
use scia.Proxy.Admin.{AdminHandlers, AdminState, serve_admin}
use scia.Proxy.Tokens.{resolve_service_input_key, reply}
use scia.Proxy.AdminLaws.{
  Untouched, Decides, Resolves, serve_admin-unauthorized, serve_admin-Resolves,
}
use scia.Proxy.Forward.{Response, relayed, Neighbours, serve_forward}
use scia.Proxy.ForwardLaws.{Relayed, serve_forward-Relayed}
use scia.Proxy.TargetLaws.{evaluate-validate_credential_injection_target}
use scia.Proxy.Targets.{validate_credential_injection_target}
use scia.Tests.Fixture.{platform, given, cfg, validate-given, request, target}

-- Neighbours that count their calls: the approval is given, and the upstream answers.
abbrev neighbours : Neighbours ℕ
neighbours = record {
  parse_ip = λ _. none;
  approve = λ method target rule note s. (suc s, true);
  apply = λ cfg ids r s. (suc s, ok r);
  service_ids = λ cfg ids host path s. (s, ok ids);
  apply_services = λ cfg ids r s. (s, ok r);
  round_trip = λ r s. (suc s, ok (record { status = 200; body = "hi" }));
}

abbrev hi : Response
hi = record { status = 200; body = "hi" }

forward-request : serve_forward neighbours cfg request 0 ≡ (3, relayed hi)
unfolding serve_forward scia.Config.Request.target_url scia.Proxy.Targets.is_proxy_self_target
    scia.Go.split_host_port scia.Go.trim_space evaluate scia.Policy.rule_matches
    scia.Policy.contains_fold scia.Go.equal_fold scia.Policy.match_host_any scia.Policy.match_one
    scia.Go.path_match scia.Go.has_suffix scia.Go.host_only scia.Policy.match_any
    validate_credential_injection_target
forward-request = refl

serve_forward-Relayed_example : Relayed neighbours cfg request 0 3 hi
serve_forward-Relayed_example = serve_forward-Relayed neighbours cfg request 0 3 hi forward-request

evaluate-target_example :
    validate_credential_injection_target (evaluate cfg request target.host) target.host ≡ ok tt
evaluate-target_example =
    evaluate-validate_credential_injection_target cfg request target.host
      (validate-IsValid platform given cfg validate-given).0

abbrev handlers : AdminHandlers ℕ
handlers = record {
  ca_pem = λ s. (s, hi);
  credential_status = λ cfg r s. (s, hi);
  put_token = λ cfg r s. (suc s, reply 204 "");
  revoke_token = λ cfg r s. (suc s, reply 204 "");
  show = λ l. "";
}

abbrev state : AdminState ℕ
state = record { world = 0; approvals = new_manager }

-- A request for the tokens without the token.
abbrev stranger : Request
stranger = record {
  method = "POST";
  url =
      some
        (record { scheme = ""; host = ""; path = "/_scia/tokens"; raw_path = ""; raw_query = "" });
  host = "localhost:8080";
  header = ("Authorization", "Bearer guess" ∷ []) ∷ [];
  request_uri = "/_scia/tokens";
}

abbrev env : String → String
env name = ""

not-authorized :
    (token : String)
    → admin_token env cfg.server.admin_token ≡ some token
    → is_authorized_bearer_token stranger token ≡ false
unfolding admin_token is_authorized_bearer_token
not-authorized token h =
    subst (λ o. elim o [ none ↦ false | some t ↦ is_authorized_bearer_token stranger t ] ≡ false) h
      refl

serve_admin-unauthorized_example :
    Untouched env handlers state (serve_admin env handlers cfg stranger state)
serve_admin-unauthorized_example =
    serve_admin-unauthorized env handlers cfg stranger state not-authorized

-- An approval through the admin interface, for a request that waits.
abbrev waiting : AdminState ℕ
waiting = record state {
  approvals = set_waiter new_manager "1" (
      start "1"
        (record { id = ""; method = "POST"; url = ""; rule = "r"; note = ""; status = "" }));
}

abbrev approve_it : Request
approve_it = record stranger {
  url = some (record {
    scheme = "";
    host = "";
    path = "/_scia/approvals/1/approve";
    raw_path = "";
    raw_query = "";
  });
  header = ("Authorization", "Bearer s3cret" ∷ []) ∷ [];
}

approved-204 : (serve_admin env handlers cfg approve_it waiting).1 ≡ reply 204 ""
unfolding serve_admin admin_token is_authorized_bearer_token scia.Approval.resolve
approved-204 = refl

serve_admin-Resolves_example :
    Resolves env handlers
      (Decides env handlers cfg approve_it)
      waiting
      (serve_admin env handlers cfg approve_it waiting)
serve_admin-Resolves_example = serve_admin-Resolves env handlers cfg approve_it waiting

abbrev with_input : ServiceConfig
with_input = record {
  name = "n";
  icon_url = "";
  description = "";
  released = none;
  hosts = [];
  inputs =
      record {
        id = "token";
        name = "";
        description = "";
        type = "secret";
        required = true;
        secret_key = "access_token";
      }
      ∷ [];
  oauth = none;
  injection = record { headers = []; query = [] };
}

resolve-token : resolve_service_input_key with_input "svc" "token" ≡ ok "access_token"
unfolding resolve_service_input_key
resolve-token = refl
