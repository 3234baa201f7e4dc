-- ===== src/Tests/Auth.antt =====
-- internal/auth/credential.go on concrete input: a token endpoint that always answers, a store that is a
-- list, and a clock that is a number.
use Prim.Native.String.{◌++◌}
use scia.Base.{
  subst, ◌<◌, ◌≤◌, ◌*◌, ℕ, ◌+◌, String, List, [], ◌∷◌, false, none, some, ok, err, errorf, str,
  lookup, insert, erase, ◌≡◌, refl, pos, inl, lookup-insert, eq_iff, ap, ◌∙◌, if◌then◌else◌,
}
use scia.Auth.Clock.{lifetime}
use scia.Auth.Inject.{apply_one, apply}
use scia.Auth.Laws.{Post}
use scia.Auth.Laws.Apply.{HasBearerFor, apply_one-HasBearer, apply-Sound}
use scia.Auth.Laws.Cache.{or_cached-take_token}
use scia.Auth.Laws.Clock.{lifetime-bounds}
use scia.Auth.Laws.Errors.{FailedOne, apply-validate}
use scia.Auth.Laws.Hosts.{Rounds, apply_services-Matched}
use scia.Auth.Laws.Place.{SamePlace, place_of}
use scia.Auth.Laws.Kept.{Sound, Rely}
use scia.Auth.Laws.Rotation.{Remembers, secret_value-put_credential_secret}
use scia.Auth.Monad.{return}
use scia.Auth.Secrets.{secret_value, rotating_secret_value, put_credential_secret}
use scia.Auth.Services.{apply_services}
use scia.Auth.Tokens.{or_cached, take_token, supported_token_type}
use scia.Auth.Types.{Injector, AccessBody, Outside}
use scia.Config.Lookup.{credential_user_id, has_configured_user}
use scia.Config.Env.{header_value_from_env}
use scia.Config.Ids.{
  google_has_client_config, notion_has_client_config, todoist_has_client_config,
  slack_has_client_config, github_has_client_config,
}
use scia.Config.Types.{CredentialConfig, Config, ServiceConfig}
use scia.Config.Validate.Rules.{validate}
use scia.Go.Http.{Request, Url}
use scia.Secrets.Store.{Store}
use scia.Tests.Fixture.{platform, given, cfg, request, guarded_rule}

-- The clock and the secrets.
record World : Type 0 where
  time : ℕ
  secrets : List (String × String)

abbrev store : Store World
store = record {
  get = λ user key w. (w, ok (lookup (user ++ ("/" ++ key)) w.secrets));
  put = λ user key value w.
      (record w { secrets = insert (user ++ ("/" ++ key)) value w.secrets }, ok tt);
  delete = λ user key w. (record w { secrets = erase (user ++ ("/" ++ key)) w.secrets }, ok tt);
}

abbrev answer : AccessBody
answer = record { access_token = "at"; token_type = "Bearer"; expires_in = pos 3600 }

abbrev url : Url
url = record {
  scheme = "https";
  host = "a.example.com";
  path = "/v1";
  raw_path = "";
  raw_query = "";
}

abbrev outside : Outside World
outside = record {
  platform = platform;
  json = record {
    marshal_ids = λ _. "";
    unmarshal_ids = λ _. ok [];
    marshal_service = λ _. "";
    unmarshal_service = λ _. err (errorf "none" []);
  };
  store = store;
  now = λ w. w.time;
  wait = λ key i. i;
  request_url = λ _. ok url;
  send = λ post w. (w, ok (record { status_code = 200; status = "200 OK"; body = "{}" }));
  metadata = record {
    path_escape = λ s. s;
    join_path = λ s t. s ++ t;
    get = λ url token w. (w, err (errorf "offline" []));
  };
  base64 = λ s. s;
  encode_form = λ _. "";
  marshal = λ _. "";
  decode_access = λ _. ok answer;
  decode_token = λ _. ok (record { access = answer; refresh_token = "rt2" });
  decode_raw = λ _. ok [];
  format_int = λ _. "1";
  parse_int = λ _. none;
  parse_query = λ _. [];
  encode_query = λ _. "";
  execute = λ raw fields secret. return raw;
}

abbrev later : World
later = record { time = 7; secrets = [] }

abbrev start : Injector World
start = record { world = record { time = 0; secrets = [] }; cache = [] }

start-Sound : Sound start
start-Sound key c e = cc

outside-Rely : Rely outside
outside-Rely key i h = h

outside-Remembers : Remembers outside
outside-Remembers user key value s t e =
    let at = user ++ ("/" ++ key) in
    ap (λ v. (t, ok v))
      (subst (λ (u : World). lookup at u.secrets ≡ some value) (λ k. (e k).0)
        (lookup-insert at at value s.secrets
          ∙ ap (λ b. if b then some value else lookup at s.secrets) ((eq_iff at at).1 refl)))

abbrev token_credential : CredentialConfig
token_credential = record {
  id = "api";
  type = "oauth2-client-credentials";
  header = "";
  value = "";
  params = ("token_url", "https://a/t") ∷ ("client_id", "i") ∷ ("client_secret", "s") ∷ [];
}

abbrev broken_credential : CredentialConfig
broken_credential = record token_credential { params = [] }

abbrev broken : Config
broken = record given { credentials = broken_credential ∷ [] }

abbrev broken_cfg : Config
broken_cfg = record cfg { credentials = broken_credential ∷ [] }

validate-broken : validate platform broken ≡ ok broken_cfg
unfolding validate google_has_client_config notion_has_client_config todoist_has_client_config
    slack_has_client_config github_has_client_config
validate-broken = refl

apply-broken : apply outside broken_cfg ("api" ∷ []) request start ≡ (
  start,
  err (errorf "credential %q requires token_url, client_id, and client_secret" (str "api" ∷ [])),
)
unfolding apply scia.Auth.Monad.◌>>=◌ scia.Config.Lookup.find_credential scia.Auth.Monad.lift
apply-broken = refl

lifetime-bounds_example :
    ((n : ℕ) × (lifetime (pos 60) ≡ pos n) × (0 < n) × (n < 9223372036854775808))
    × ((n : ℕ) → pos 60 ≡ pos n → 0 < n → n ≤ 9223372036 → lifetime (pos 60) ≡ pos (n * 1000000000))
lifetime-bounds_example = lifetime-bounds (pos 60)

abbrev taken : Injector World
taken = (take_token outside supported_token_type "api" answer start).0

took : take_token outside supported_token_type "api" answer start ≡ (taken, ok "at")
unfolding scia.Auth.Monad.◌>>=◌ scia.Auth.Monad.lift supported_token_type
    scia.Auth.Tokens.store_token return
took = refl

or_cached-take_token_example :
    (n : ℕ) × (lifetime (pos 3600) ≡ pos n)
    × (7 + 30 * 1000000000 < 0 + n
        → or_cached outside "api" (return "new") (record taken { world = later })
          ≡ (record taken { world = later }, ok "at"))
    × (0 + n ≤ 7 + 30 * 1000000000
        → or_cached outside "api" (return "new") (record taken { world = later })
          ≡ return "new" (record taken { world = later }))
or_cached-take_token_example =
    or_cached-take_token outside supported_token_type "api" "at" (return "new") answer start taken
      later took

apply_one-HasBearer_example :
    Post Sound
      (HasBearerFor token_credential)
      (apply_one outside cfg token_credential request start)
apply_one-HasBearer_example =
    apply_one-HasBearer outside outside-Rely cfg token_credential request start start-Sound

apply-Sound_example : Sound (apply outside cfg ("api" ∷ []) request start).0
apply-Sound_example = apply-Sound outside outside-Rely cfg ("api" ∷ []) request start start-Sound

apply-validate_example :
    FailedOne outside broken_cfg
      ("api" ∷ [])
      start
      (errorf "credential %q requires token_url, client_id, and client_secret" (str "api" ∷ []))
apply-validate_example =
    apply-validate outside platform broken broken_cfg guarded_rule request start start
      (errorf "credential %q requires token_url, client_id, and client_secret" (str "api" ∷ []))
      validate-broken (inl refl) apply-broken

abbrev rotated : Injector World
rotated = record start { world = record { time = 0; secrets = ("api/refresh_token", "rt2") ∷ [] } }

put-rotated :
    put_credential_secret outside cfg token_credential "refresh_token" "rt2" start
    ≡ (rotated, ok tt)
unfolding put_credential_secret credential_user_id scia.Go.cut has_configured_user
put-rotated = refl

secret_value-put_credential_secret_example :
    (rotating_secret_value outside cfg token_credential "refresh_token" rotated
      ≡ (rotated, ok "rt2"))
    × (secret_value outside cfg token_credential "refresh_token" rotated
        ≡ (rotated, ok (if false then "" else "rt2")))
unfolding header_value_from_env
secret_value-put_credential_secret_example =
    secret_value-put_credential_secret outside outside-Remembers cfg token_credential
      "refresh_token" "rt2" start rotated put-rotated

abbrev service : ServiceConfig
service = record {
  name = "n";
  icon_url = "";
  description = "";
  released = none;
  hosts =
      record {
        host = "a.example.com";
        host_suffix = "";
        path_prefix = "";
        auth_method = "none";
        credential_host_field = "";
      }
      ∷ [];
  inputs = [];
  oauth = none;
  injection = record { headers = []; query = [] };
}

abbrev with_service : Config
with_service = record cfg { server = record cfg.server { services = ("svc", service) ∷ [] } }

abbrev to_service : Request
to_service = record request { url = some url }

applied : apply_services outside with_service ("svc" ∷ []) to_service start ≡ (start, ok to_service)
unfolding apply_services scia.Auth.Monad.◌>>=◌ return scia.Go.host_only
applied = refl

apply_services-Matched_example :
    Rounds outside with_service (place_of to_service.url) ("svc" ∷ []) to_service start
    × SamePlace to_service to_service
apply_services-Matched_example =
    apply_services-Matched outside with_service to_service start ("svc" ∷ []) to_service start
      applied
