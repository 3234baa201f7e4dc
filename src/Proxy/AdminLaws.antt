-- ===== src/Proxy/AdminLaws.antt =====
-- internal/proxy/server.go: lemmas and theorems on the admin interface.
use Prim.Native.String.{◌++◌, ◌∷◌}
use scia.Base.{
  String, List, [], ◌∷◌, Bool, true, false, not, ◌||◌, ◌==◌, Option, none, some, Result, ok,
  ok-injective, if◌then◌else◌, ◌≡◌, ◌⊎◌, inl, inr, refl, sym, subst, ap, ◌∙◌, not-false, if-cases,
  Any, eq_iff, or-true,
}
use scia.Approval.{Manager, Status, approved, denied, resolve, is_pending}
use scia.Config.Request.{admin_token, is_authorized_bearer_token}
use scia.Config.Types.{Config, ServiceConfig, ServiceInputConfig}
use scia.Go.{cut, trim_prefix, has_prefix}
use scia.Go.CutLaws.{Without, cut_sound}
use scia.Go.PrefixLaws.{has_prefix_sound}
use scia.Go.Http.{Request}
use scia.Proxy.Admin.{
  AdminHandlers, AdminState, serve_admin, with_token, route, route_get, route_post, resolved,
  decide_approval, path_of,
}
use scia.Proxy.Tokens.{reply, find_input, resolve_service_input_key}
use scia.Proxy.Forward.{Response}

-- The status that an action of the admin interface stands for.
abbrev pub Asks : String → Status → Type 0
Asks action status =
    ((action ≡ "approve") × (status ≡ approved)) ⊎ ((action ≡ "deny") × (status ≡ denied))

module _ {S : Type 0} (getenv : String → String) (h : AdminHandlers S) where
  -- The state is the same, and the answer is 401 or 404.
  abbrev pub Untouched : AdminState S → AdminState S × Response → Type 0
  Untouched s x = (x.0 ≡ s) × ((x.1.status ≡ 401) ⊎ (x.1.status ≡ 404))

  -- A request without the admin token, and any request where no token is configured, changes nothing
  -- and is answered with 401 or 404.
  pub serve_admin-unauthorized :
      (cfg : Config) (r : Request) (s : AdminState S)
      → ((token : String)
          → admin_token getenv cfg.server.admin_token ≡ some token
          → is_authorized_bearer_token r token ≡ false)
      → Untouched s (serve_admin getenv h cfg r s)
  unfolding serve_admin
  serve_admin-unauthorized cfg r s n = go (admin_token getenv cfg.server.admin_token) n
    where
      go :
          (o : Option String)
          → ((token : String) → o ≡ some token → is_authorized_bearer_token r token ≡ false)
          → Untouched s (with_token getenv h cfg r o s)
      go none n = (refl, inr refl)
      go (some token) n =
          subst
            (λ b. Untouched s (
              if not b
              then (s, reply 401 "unauthorized")
              else route getenv h cfg r (path_of getenv h r.url) s))
            (sym (n token refl)) (refl, inl refl)

  -- A POST to /_scia/approvals/{id}/{action} with the admin token, which asks for the status.
  pub record Decides (cfg : Config) (r : Request) (id : String) (status : Status) : Type 0 where
    pub token : String
    pub is_token : admin_token getenv cfg.server.admin_token ≡ some token
    pub authorized : is_authorized_bearer_token r token ≡ true
    pub post : r.method ≡ "POST"
    pub action : String
    pub is_path : path_of getenv h r.url ≡ "/_scia/approvals/" ++ (id ++ (◌∷◌ "/" action))
    pub whole_id : Without b'/' id
    pub asks : Asks action status

  -- The answer is that of one call of Resolve that found the request, and nothing else has happened.
  abbrev Calls : AdminState S → String → Status → AdminState S × Response → Type 0
  Calls s id status x =
      (resolve s.approvals id status ≡ (x.0.approvals, true))
      × (x.0.world ≡ s.world)
      × (x.1.status ≡ 204)

  -- The approvals are the same, or a call of Resolve that the given condition allows has found its
  -- request.
  abbrev pub Resolves : (String → Status → Type 0) → AdminState S → AdminState S × Response → Type 0
  Resolves Allowed s x =
      (x.0.approvals ≡ s.approvals)
      ⊎ ((id : String) × (status : Status) × Allowed id status × Calls s id status x)

  module _ (Allowed : String → Status → Type 0) (s : AdminState S) where
    resolved-Resolves :
        (id : String) (status : Status)
        → Allowed id status
        → Resolves Allowed s (resolved getenv h s (resolve s.approvals id status))
    resolved-Resolves id status a = go (resolve s.approvals id status) refl
      where
        go :
            (x : Manager × Bool)
            → resolve s.approvals id status ≡ x
            → Resolves Allowed s (resolved getenv h s x)
        go (m, true) e = inr (id, status, a, (e, refl, refl))
        go (m, false) e = inl refl

    decide_approval-Resolves :
        (o : Option (String × String))
        → ((id action : String) (status : Status)
            → o ≡ some (id, action)
            → Asks action status
            → Allowed id status)
        → Resolves Allowed s (decide_approval getenv h s o)
    decide_approval-Resolves none allow = inl refl
    decide_approval-Resolves (some (id, action)) allow =
        if-cases (Resolves Allowed s) (action == "approve") _ _
          (λ e.
            resolved-Resolves id approved
              (allow id action approved refl (inl ((eq_iff action "approve").0 e, refl))))
          (λ _.
            if-cases (Resolves Allowed s) (action == "deny") _ _
              (λ e.
                resolved-Resolves id denied
                  (allow id action denied refl (inr ((eq_iff action "deny").0 e, refl))))
              (λ _. inl refl))

    route_get-Resolves :
        (cfg : Config) (r : Request) (path : String)
        → Resolves Allowed s (route_get getenv h cfg r path s)
    unfolding route_get
    route_get-Resolves cfg r path =
        if-cases (Resolves Allowed s) (path == "/_scia/healthz") _ _ (λ _. inl refl)
          (λ _.
            if-cases (Resolves Allowed s) (path == "/_scia/ca.pem") _ _ (λ _. inl refl)
              (λ _.
                if-cases (Resolves Allowed s) (path == "/_scia/approvals") _ _ (λ _. inl refl)
                  (λ _.
                    if-cases (Resolves Allowed s) (path == "/_scia/credentials/status") _ _
                      (λ _. inl refl) (λ _. inl refl))))

    route_post-Resolves :
        (cfg : Config) (r : Request) (path : String)
        → ((id action : String) (status : Status)
            → path ≡ "/_scia/approvals/" ++ (id ++ (◌∷◌ "/" action))
            → Without b'/' id
            → Asks action status
            → Allowed id status)
        → Resolves Allowed s (route_post getenv h cfg r path s)
    unfolding route_post
    route_post-Resolves cfg r path allow =
        if-cases (Resolves Allowed s) (path == "/_scia/tokens" || path == "/_scia/secrets") _ _
          (λ _. inl refl)
          (λ _.
            if-cases (Resolves Allowed s)
              (path == "/_scia/tokens/revoke" || path == "/_scia/secrets/revoke") _ _
              (λ _. inl refl)
              (λ _.
                if-cases (Resolves Allowed s) (has_prefix path "/_scia/approvals/") _ _
                  (λ p.
                    let rest = trim_prefix path "/_scia/approvals/" in
                    decide_approval-Resolves (cut rest b'/') (λ id action status e asks.
                      let (whole, without) = cut_sound "/" rest id action e in
                      allow id action status
                        (has_prefix_sound path "/_scia/approvals/" p
                          ∙ ap (λ t. "/_scia/approvals/" ++ t) whole)
                        without asks))
                  (λ _. inl refl)))

  -- The admin interface changes the approvals only for a POST to /_scia/approvals/{id}/approve or
  -- /_scia/approvals/{id}/deny that carries the configured admin token, where the id has no slash. It
  -- then makes one call of Resolve with that id, and with Approved for approve and Denied for deny,
  -- which has found the request; the approvals are what that call leaves, the rest of the state is the
  -- same, and the answer is 204.
  pub serve_admin-Resolves :
      (cfg : Config) (r : Request) (s : AdminState S)
      → Resolves (Decides cfg r) s (serve_admin getenv h cfg r s)
  unfolding serve_admin route
  serve_admin-Resolves cfg r s = go (admin_token getenv cfg.server.admin_token) refl
    where
      go :
          (o : Option String)
          → admin_token getenv cfg.server.admin_token ≡ o
          → Resolves (Decides cfg r) s (with_token getenv h cfg r o s)
      go none e = inl refl
      go (some token) e =
          if-cases (Resolves (Decides cfg r) s) (not (is_authorized_bearer_token r token)) _ _
            (λ _. inl refl)
            (λ authorized.
              if-cases (Resolves (Decides cfg r) s) (r.method == "GET") _ _
                (λ _. route_get-Resolves (Decides cfg r) s cfg r (path_of getenv h r.url))
                (λ _.
                  if-cases (Resolves (Decides cfg r) s) (r.method == "POST") _ _
                    (λ post.
                      route_post-Resolves (Decides cfg r) s cfg r (path_of getenv h r.url)
                        (λ id action status path without asks. record {
                          token = token;
                          is_token = e;
                          authorized = not-false _ authorized;
                          post = (eq_iff r.method "POST").0 post;
                          action = action;
                          is_path = path;
                          whole_id = without;
                          asks = asks;
                        }))
                    (λ _. inl refl)))

  -- What comes of an approval that is asked for: its request was waiting, the status is on its way to
  -- it, and the answer is 204; or it was not, nothing has changed, and the answer is 404.
  abbrev pub Answered : AdminState S → String → Status → AdminState S × Response → Type 0
  Answered s id status x =
      ((is_pending s.approvals id ≡ true)
        × (x.0.approvals.sending ≡ List.◌∷◌ (id, status) s.approvals.sending)
        × (x.0.approvals.waiters ≡ s.approvals.waiters)
        × (x.0.world ≡ s.world)
        × (x.1.status ≡ 204))
      ⊎ ((is_pending s.approvals id ≡ false) × (x.0 ≡ s) × (x.1.status ≡ 404))

  abbrev approvals_path : String → String
  approvals_path rest = "/_scia/approvals/" ++ rest

-- An input of the service has the secret key, and the given key is its id or its secret key.
abbrev pub IsInputKey : String → String → ServiceInputConfig → Type 0
IsInputKey given key i = (i.secret_key ≡ key) × ((given ≡ i.id) ⊎ (given ≡ i.secret_key))

find_input-IsInputKey :
    (id given key : String) (inputs : List ServiceInputConfig)
    → find_input id given inputs ≡ ok key
    → Any (IsInputKey given key) inputs
unfolding find_input
find_input-IsInputKey id given key [] h = cc
find_input-IsInputKey id given key (i ∷ inputs) h =
    if-cases (λ (x : Result String). x ≡ ok key → Any (IsInputKey given key) (i ∷ inputs))
      (given == i.id || given == i.secret_key) _ _
      (λ e h. inl (
        ok-injective h,
        elim (or-true _ _ e) [
          | inl a ↦ inl ((eq_iff given i.id).0 a)
          | inr a ↦ inr ((eq_iff given i.secret_key).0 a)
        ],
      ))
      (λ e h. inr (find_input-IsInputKey id given key inputs h)) h

-- The key under which a value for a service with inputs is stored is the secret key of one of its
-- inputs, the one that the request names by its id or its secret key.
pub resolve_service_input_key-IsInputKey :
    (s : ServiceConfig) (id given key : String)
    → resolve_service_input_key s id given ≡ ok key
    → Any (IsInputKey given key) s.inputs
unfolding resolve_service_input_key
resolve_service_input_key-IsInputKey s id given key h =
    find_input-IsInputKey id given key s.inputs h
