-- ===== src/Proxy/ForwardLaws.antt =====
-- internal/proxy/server.go: what must have happened before a request reaches an upstream.
use scia.Base.{
  ℕ, String, List, [], Bool, true, false, ◌==◌, some, Result, ok, err, ◌≡◌, ◌≢◌, refl, ap, ◌∙◌,
  arith, if-cases, ne_of_test, eq_iff, is_empty_of_ne, ne_of_is_empty,
}
use scia.Config.Types.{Config}
use scia.Config.Request.{target_url, clone_request_without_proxy_headers}
use scia.Go.Http.{Request, Url}
use scia.Policy.{Decision, evaluate, match_host_any}
use scia.Proxy.Forward.{
  Response, Answer, refused, relayed, Neighbours, or_refuse, relay, inject_services, inject,
  if_approved, authorize, forward_to, serve_forward,
}
use scia.Proxy.Targets.{is_proxy_self_target, validate_credential_injection_target}

abbrev pub Run : Type 0 → Type 0
Run S = S × Answer

refused-ne :
    {S : Type 0} {s t : S} {c : ℕ} {b : String} {resp : Response}
    → ¬ ◌≡◌ {A = Run S} (s, refused c b) (t, relayed resp)
refused-ne h = no (λ i. (h i).1)
  where
    no : {c : ℕ} {b : String} {resp : Response} → refused c b ≢ relayed resp
    no h = cc

-- The requests that led to the response: Apply was given the decision's credentials and the request to
-- the target without the proxy's own headers, ApplyServices was given what Apply made of it, with the
-- services found for the decision and the target, and what ApplyServices made of it was sent.
pub record Injected {S : Type 0} (n : Neighbours S) (cfg : Config) (d : Decision) (target : Url)
    (r : Request) (s t : S) (resp : Response) : Type 0 where
  pub with_credentials : S × Request
  pub with_ids : S × List String
  pub with_services : S × Request
  pub applied :
      n.apply cfg d.credentials
        (record (clone_request_without_proxy_headers r) { url = some target })
        s
      ≡ (with_credentials.0, ok with_credentials.1)
  pub found :
      n.service_ids cfg d.services target.host target.path with_credentials.0
      ≡ (with_ids.0, ok with_ids.1)
  pub services_applied :
      n.apply_services cfg with_ids.1 with_credentials.1 with_ids.0
      ≡ (with_services.0, ok with_services.1)
  pub sent : n.round_trip with_services.1 with_services.0 ≡ (t, ok resp)
  -- Where there are credentials, the deciding rule has hosts, and the target is one of them.
  pub for_target :
      d.credentials ≢ [] → (d.rule.hosts ≢ []) × (match_host_any d.rule.hosts target.host ≡ true)

-- What has happened when the proxy relays an upstream's response to the client: `before` is the state
-- after the approval, if there was one to wait for.
pub record Relayed {S : Type 0} (n : Neighbours S) (cfg : Config) (r : Request) (s t : S)
    (resp : Response) : Type 0 where
  pub target : Url
  pub is_target : target_url r ≡ ok target
  pub not_self : is_proxy_self_target n.parse_ip cfg.server.listen target.host target.scheme ≡ false
  pub before : S
  pub not_denied : (evaluate cfg (record r { url = some target }) target.host).action ≢ "deny"
  pub approved :
      (evaluate cfg (record r { url = some target }) target.host).action ≡ "approval"
      → n.approve r.method target
          (evaluate cfg (record r { url = some target }) target.host).rule.name
          (evaluate cfg (record r { url = some target }) target.host).rule.approval_note
          s
        ≡ (before, true)
  pub not_asked :
      (evaluate cfg (record r { url = some target }) target.host).action ≢ "approval" → before ≡ s
  pub injected :
      Injected n cfg
        (evaluate cfg (record r { url = some target }) target.host)
        target
        r
        before
        t
        resp

validate-for_target :
    (d : Decision) (host : String)
    → validate_credential_injection_target d host ≡ ok tt
    → d.credentials ≢ []
    → (d.rule.hosts ≢ []) × (match_host_any d.rule.hosts host ≡ true)
unfolding validate_credential_injection_target
validate-for_target d host h n =
    let e = is_empty_of_ne d.credentials n in
    (ne_of_is_empty d.rule.hosts (ground arith), ground arith)

module _ {S : Type 0} (n : Neighbours S) where
  or_refuse-relayed :
      {A : Type 0} (c : ℕ) (b : String) (m : S × Result A) (k : A → S → S × Answer) (t : S)
      (resp : Response)
      → or_refuse n c b m k ≡ (t, relayed resp)
      → (s : S) × (a : A) × (m ≡ (s, ok a)) × (k a s ≡ (t, relayed resp))
  or_refuse-relayed c b (s, ok a) k t resp h = (s, a, refl, h)
  or_refuse-relayed c b (s, err e) k t resp h = absurd (refused-ne h)

  relay-relayed :
      (next : Request) (s t : S) (resp : Response)
      → relay n next s ≡ (t, relayed resp)
      → n.round_trip next s ≡ (t, ok resp)
  relay-relayed next s t resp h =
      let (u, a, e, f) =
        or_refuse-relayed 502 "upstream request failed" (n.round_trip next s) _ t resp h in
      e ∙ (λ i. ((f i).0, ok (relayed-eq (λ j. (f j).1) i)))
    where
      relayed-eq : {x y : Response} → relayed x ≡ relayed y → x ≡ y
      relayed-eq h = cc

  inject-Injected :
      (cfg : Config) (d : Decision) (target : Url) (r : Request) (s t : S) (resp : Response)
      → inject n cfg d target r s ≡ (t, relayed resp)
      → Injected n cfg d target r s t resp
  inject-Injected cfg d target r s t resp h =
      let (a, _, e, f) =
        or_refuse-relayed 502 "credential injection target rejected"
          (s, validate_credential_injection_target d target.host) _ t resp h in
      let next = record (clone_request_without_proxy_headers r) { url = some target } in
      let (b, made, g, k) =
        or_refuse-relayed 502 "credential injection failed" (n.apply cfg d.credentials next a)
          (inject_services n cfg d target) t resp f in
      let (c, ids, l, m) =
        or_refuse-relayed 502 "service metadata lookup failed"
          (n.service_ids cfg d.services target.host target.path b) _ t resp k in
      let (x, out, o, p) =
        or_refuse-relayed 502 "service injection failed" (n.apply_services cfg ids made c) (relay n)
          t resp m in
      record {
        with_credentials = (b, made);
        with_ids = (c, ids);
        with_services = (x, out);
        applied = ap (n.apply cfg d.credentials next) (λ i. (e i).0) ∙ g;
        found = l;
        services_applied = o;
        sent = relay-relayed out x t resp p;
        for_target = validate-for_target d target.host (λ i. (e i).1);
      }

  if_approved-relayed :
      (m : S × Bool) (k : S → S × Answer) (t : S) (resp : Response)
      → if_approved n m k ≡ (t, relayed resp)
      → (u : S) × (m ≡ (u, true)) × (k u ≡ (t, relayed resp))
  if_approved-relayed (u, true) k t resp h = (u, refl, h)
  if_approved-relayed (u, false) k t resp h = absurd (refused-ne h)

  -- The decision lets the request pass, and the rest of the handler has run.
  abbrev pub Authorized : Decision → Request → Url → S → (S → S × Answer) → S → Response → Type 0
  Authorized d r target s k t resp =
      (d.action ≢ "deny")
      × ((u : S) × (d.action ≡ "approval"
            → n.approve r.method target d.rule.name d.rule.approval_note s ≡ (u, true))
          × (d.action ≢ "approval" → u ≡ s)
          × (k u ≡ (t, relayed resp)))

  -- authorize calls the rest of the handler only if the decision is not to deny, and, where it asks
  -- for an approval, only behind the approval that was given.
  pub authorize-relayed :
      (d : Decision) (r : Request) (target : Url) (s : S) (k : S → S × Answer) (t : S)
      (resp : Response)
      → authorize n d r target s k ≡ (t, relayed resp)
      → Authorized d r target s k t resp
  unfolding authorize
  authorize-relayed d r target s k t resp =
      if-cases (λ (x : S × Answer). x ≡ (t, relayed resp) → Authorized d r target s k t resp)
        (d.action == "deny") _ _ (λ e h. absurd (refused-ne h))
        (λ e.
          if-cases (λ (x : S × Answer). x ≡ (t, relayed resp) → Authorized d r target s k t resp)
            (d.action == "approval") _ _
            (λ f h.
              let (u, a, g) = if_approved-relayed _ k t resp h in
              (
                ne_of_test d.action "deny" e,
                (u, (λ _. a), (λ m. absurd (m ((eq_iff d.action "approval").0 f))), g),
              ))
            (λ f h. (
              ne_of_test d.action "deny" e,
              (s, (λ g. absurd (ne_of_test d.action "approval" f g)), (λ _. refl), h),
            )))

  forward_to-Relayed :
      (cfg : Config) (r : Request) (target : Url) (s t : S) (resp : Response)
      → target_url r ≡ ok target
      → forward_to n cfg r target s ≡ (t, relayed resp)
      → Relayed n cfg r s t resp
  unfolding forward_to
  forward_to-Relayed cfg r target s t resp e =
      let d = evaluate cfg (record r { url = some target }) target.host in
      if-cases (λ (x : S × Answer). x ≡ (t, relayed resp) → Relayed n cfg r s t resp)
        (is_proxy_self_target n.parse_ip cfg.server.listen target.host target.scheme) _ _
        (λ _ h. absurd (refused-ne h))
        (λ self h.
          let (denied, (u, ask, skip, k)) =
            authorize-relayed d r target s (inject n cfg d target r) t resp h in
          record {
            target = target;
            is_target = e;
            not_self = self;
            before = u;
            not_denied = denied;
            approved = ask;
            not_asked = skip;
            injected = inject-Injected cfg d target r u t resp k;
          })

  -- The proxy relays an upstream's response only for a request with a target that is not the proxy
  -- itself, on which the policy's decision is not to deny, and which was approved where the decision
  -- asks for an approval. What was sent upstream is then the request to that target, without the
  -- proxy's own headers, as Apply changed it for exactly the decision's credentials and ApplyServices
  -- for the services found for the decision and the target, in that order behind the approval; and
  -- where the decision has credentials, its rule has hosts and the target is one of them.
  pub serve_forward-Relayed :
      (cfg : Config) (r : Request) (s t : S) (resp : Response)
      → serve_forward n cfg r s ≡ (t, relayed resp)
      → Relayed n cfg r s t resp
  unfolding serve_forward
  serve_forward-Relayed cfg r s t resp h = go (target_url r) refl h
    where
      go :
          (x : Result Url)
          → target_url r ≡ x
          → elim x as (λ _. S × Answer) [
            | err e ↦ (s, refused 400 e.format)
            | ok target ↦ forward_to n cfg r target s
          ]
            ≡ (t, relayed resp)
          → Relayed n cfg r s t resp
      go (ok target) e h = forward_to-Relayed cfg r target s t resp e h
      go (err x) e h = absurd (refused-ne h)
