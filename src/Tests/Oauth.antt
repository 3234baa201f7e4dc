-- ===== src/Tests/Oauth.antt =====
-- internal/oauth/server.go on concrete input.
use Prim.Native.String.{◌++◌}
use scia.Base.{
  ◌==◌, ne_of_test, String, List, [], ◌∷◌, true, false, none, some, Option, Result, ok, lookup,
  insert, erase, ◌≡◌, ◌≢◌, refl, ap, ◌∙◌, subst, lookup-insert, eq_iff, if◌then◌else◌, pos, Elem,
  All, is_empty,
}
use scia.Config.Lookup.{has_dynamic_user}
use scia.Config.Types.{Config, OauthIntegrationScopeConfig, ServiceConfig}
use scia.Go.{join}
use scia.Oauth.Laws.Scopes.{oauth_scope_from_request-Listed, scope_values}
use scia.Oauth.Laws.State.{IsCodec, consume_state-create_state}
use scia.Oauth.Laws.Users.{IsStore, bound, authorize_dynamic_user_request-bound}
use scia.Oauth.Laws.Start.{IsAuthorized, start-IsAuthorized}
use scia.Oauth.Start.{Query, redirected, check_user}
use scia.Oauth.Start.Generic.{start}
use scia.Oauth.Scopes.{
  oauth_scope_from_request, oauth_integration_metadata, oauth_scope_separator, no_metadata,
}
use scia.Oauth.State.{create_state, consume_state, state_signing_key, from_unix, unix}
use scia.Oauth.Types.{Outside, StateInfo}
use scia.Oauth.Users.{
  UserRequest, granted, dynamic_user_token_from_request, authorize_dynamic_user_request,
}
use scia.Secrets.Store.{Store}
use scia.Tests.Codec.{
  escape, unescape, unescape-escape, escape-Without_dot, marshal, unmarshal, unmarshal-marshal,
}
use scia.Tests.Fixture.{platform, cfg}

abbrev pub World : Type 0
World = List (String × String)

abbrev store : Store World
store = record {
  get = λ user key w. (w, ok (lookup (user ++ ("/" ++ key)) w));
  put = λ user key value w. (insert (user ++ ("/" ++ key)) value w, ok tt);
  delete = λ user key w. (erase (user ++ ("/" ++ key)) w, ok tt);
}

abbrev pub outside : Outside World
outside = record {
  platform = platform;
  store = store;
  now = λ w. pos 1500000000;
  random_state = λ w. (w, ok "n");
  marshal = marshal;
  unmarshal = unmarshal;
  encode = escape;
  decode = unescape;
  hmac = λ payload key. key ++ payload;
}

outside-IsCodec : IsCodec outside
outside-IsCodec = record {
  unmarshal-marshal = unmarshal-marshal;
  decode-encode = unescape-escape;
  encode-Without = escape-Without_dot;
  random-ne = λ s t nonce h e. nonce-ne (λ i. (h i).1) e;
}
  where
    nonce-ne : {nonce : String} → ok "n" ≡ ok nonce → nonce ≢ ""
    nonce-ne h e = cc

outside-IsStore : IsStore outside
outside-IsStore = record {
  remembers = λ user key value s t e.
      let at = user ++ ("/" ++ key) in
      ap (λ v. (t, ok v))
        (subst (λ (u : World). lookup at u ≡ some value) (λ k. (e k).0)
          (lookup-insert at at value s
            ∙ ap (λ b. if b then some value else lookup at s) ((eq_iff at at).1 refl)));
  rereads = λ user key s t v e.
      subst
        (λ (u : World).
          ◌≡◌ {A = World × Result (Option String)} (u, ok (lookup (user ++ ("/" ++ key)) u))
            (t, ok v))
        (λ k. (e k).0) e;
}

-- A service with an OAuth client.
abbrev service : ServiceConfig
service = record {
  name = "n";
  icon_url = "";
  description = "";
  released = none;
  hosts = [];
  inputs = [];
  oauth = some (record {
    credential_id = "svc-cred";
    client_id = "id";
    client_id_secret_ref = "";
    client_secret = "secret";
    client_secret_ref = "";
    auth_url = "";
    token_url = "";
    revoke_url = "";
    redirect_url = "";
    scope_param = record { name = none; separator = "" };
    authorization_params = [];
    token_request = record {
      body_format = "";
      client_auth = "";
      code_grant_type = none;
      refresh_grant_type = none;
      refresh_token_url = "";
      success_field = "";
    };
  });
  injection = record { headers = []; query = [] };
}

abbrev with_service : Config
with_service = record cfg { server = record cfg.server { services = ("svc", service) ∷ [] } }

abbrev info : StateInfo
info = record { user = "ann"; credential_id = "svc-cred"; redirect_uri = ""; created_at = none }

abbrev state : String
state = "pi-ssvc-sann-ssvc----cred-s-spi-sn-s.secretpi-ssvc-sann-ssvc----cred-s-spi-sn-s"

made : create_state outside with_service "svc" info [] ≡ ([], ok state)
unfolding create_state scia.Auth.Monad.◌>>=◌ scia.Auth.Monad.return escape marshal
made = refl

svc-cred-ne : info.credential_id ≢ ""
svc-cred-ne h = ne_of_test "svc-cred" "" refl h

consume_state-create_state_example :
    (key : String) × (a : World) × (state_signing_key outside with_service "svc" "svc-cred" a
      ≡ ([], ok key))
    × ((u v : World)
        → state_signing_key outside with_service "svc" "svc-cred" u ≡ (v, ok key)
        → consume_state outside with_service state "svc" u
          ≡ (v, ok (some (record info { created_at = some (from_unix (unix (pos 1500000000))) }))))
consume_state-create_state_example =
    consume_state-create_state outside outside-IsCodec with_service with_service "svc" state info []
      [] svc-cred-ne made

abbrev dynamic : Config
dynamic = record cfg {
  server = record cfg.server {
    secrets = record cfg.server.secrets {
      mode = "kubernetes";
      kubernetes = record cfg.server.secrets.kubernetes { dynamic_users = true };
    };
  };
}

abbrev pub with_token : String → UserRequest
with_token token = record {
  header = ("X-Scia-User-Token", token ∷ []) ∷ [];
  form = λ _. "";
  query = λ _. "";
}

ann-dynamic : has_dynamic_user dynamic "ann" ≡ true
unfolding has_dynamic_user
ann-dynamic = refl

first-granted :
    authorize_dynamic_user_request outside (with_token "t") dynamic "ann" []
    ≡ (("ann/_scia_user_token", "t") ∷ [], granted)
unfolding authorize_dynamic_user_request
first-granted = refl

authorize_dynamic_user_request-bound_example :
    authorize_dynamic_user_request outside
      (with_token "u")
      dynamic
      "ann"
      (("ann/_scia_user_token", "t") ∷ [])
    ≡ (
      ("ann/_scia_user_token", "t") ∷ [],
      bound (dynamic_user_token_from_request (with_token "t")) (with_token "u"),
    )
authorize_dynamic_user_request-bound_example =
    authorize_dynamic_user_request-bound outside outside-IsStore dynamic "ann" (with_token "t")
      (with_token "u") [] (("ann/_scia_user_token", "t") ∷ []) ann-dynamic first-granted

abbrev mail : OauthIntegrationScopeConfig
mail = record {
  id = "mail";
  value = "mail.read";
  name = "";
  desc = "";
  label = "";
  description = "";
  group = "";
  group_name = "";
  group_desc = "";
  enabled = none;
}

abbrev with_scopes : Config
with_scopes = record cfg {
  server = record cfg.server {
    oauth = record cfg.server.oauth {
      integrations = ("google", record no_metadata { scopes = mail ∷ [] }) ∷ [];
    };
  };
}

some-scopes : is_empty (oauth_integration_metadata with_scopes "g" "google").scopes ≡ false
unfolding oauth_integration_metadata
some-scopes = refl

mail-scope :
    oauth_scope_from_request (λ _. "") with_scopes "g" "google" "mail" "" "" ≡ ok "mail.read"
unfolding oauth_scope_from_request
mail-scope = refl

oauth_scope_from_request-Listed_example :
    (selected : List String) × ("mail.read" ≡ join (oauth_scope_separator "google") selected)
    × (is_empty selected ≡ false)
    × All
        (λ v. Elem v (scope_values (oauth_integration_metadata with_scopes "g" "google").scopes))
        selected
oauth_scope_from_request-Listed_example =
    oauth_scope_from_request-Listed (λ _. "") with_scopes "g" "google" "mail" "" "" "mail.read"
      some-scopes mail-scope

abbrev login : UserRequest
login = record (with_token "t") {
  query = λ key. if key == "user" then "ann" else if key == "redirect_uri" then "https://r" else "";
}

abbrev dynamic_service : Config
dynamic_service = record dynamic {
  server = record dynamic.server { services = ("svc", service) ∷ [] };
}

abbrev bound_world : World
bound_world = ("ann/_scia_user_token", "t") ∷ []

abbrev login_url : String
login_url = ""

abbrev dynamic_state : String
dynamic_state =
    "pi-ssvc-sann-ssvc----cred-shttps://r-spi-sn-s.secretpi-ssvc-sann-ssvc----cred-shttps://r-spi-sn-s"

abbrev login_query : Query
login_query =
    ("client_id", "id")
    ∷ ("redirect_uri", "https://r")
    ∷ ("response_type", "code")
    ∷ ("state", dynamic_state)
    ∷ []

starts :
    start outside (λ _. "") dynamic_service "h" "svc" login []
    ≡ (bound_world, redirected login_url login_query)
unfolding start check_user scia.Auth.Monad.return scia.Auth.Monad.◌>>=◌ escape marshal
starts = refl

start-IsAuthorized_example :
    IsAuthorized outside (λ _. "") login dynamic_service [] bound_world login_url login_query
start-IsAuthorized_example =
    start-IsAuthorized outside (λ _. "") login dynamic_service [] bound_world login_url login_query
      "h" "svc" refl starts
