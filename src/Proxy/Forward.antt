-- ===== src/Proxy/Forward.antt =====
-- internal/proxy/server.go: a request that the proxy forwards. The injector (internal/auth), the wait
-- for an approval, and the transport are an interface; a response is its status and its body.
use scia.Base.{
  ℕ, String, List, Bool, true, false, ◌==◌, Option, some, Result, ok, err, if◌then◌else◌,
}
use scia.Config.Types.{Config}
use scia.Config.Request.{target_url, clone_request_without_proxy_headers}
use scia.Go.Http.{Request, Url}
use scia.Policy.{Decision, evaluate}
use scia.Proxy.Targets.{Ip, is_proxy_self_target, validate_credential_injection_target}
use scia.Secrets.Store.{Op}

pub record Response : Type 0 where
  pub status : ℕ
  pub body : String

-- What the client gets: an answer of the proxy's own, or the upstream's.
pub data Answer : Type 0 where
  refused : ℕ → String → Answer
  relayed : Response → Answer

-- The proxy's neighbours: Manager.Wait with the request's method, its target, the rule's name and its
-- note, whose answer is whether the status is Approved and the error nil; Injector.Apply and
-- ApplyServices; serviceIDsForRequest; and the transport.
pub record Neighbours (S : Type 0) : Type 0 where
  pub parse_ip : String → Option Ip
  pub approve : String → Url → String → String → S → S × Bool
  pub apply : Config → List String → Request → Op S Request
  pub service_ids : Config → List String → String → String → Op S (List String)
  pub apply_services : Config → List String → Request → Op S Request
  pub round_trip : Request → Op S Response

module _ {S : Type 0} (n : Neighbours S) where
  -- An early return with http.Error, or the rest of the handler.
  abbrev pub or_refuse :
      {A : Type 0} → ℕ → String → S × Result A → (A → S → S × Answer) → S × Answer
  or_refuse status body (s, ok a) k = k a s
  or_refuse status body (s, err e) k = (s, refused status body)

  abbrev pub relay : Request → S → S × Answer
  relay next s =
      or_refuse 502 "upstream request failed" (n.round_trip next s) (λ resp s. (s, relayed resp))

  abbrev pub inject_services : Config → Decision → Url → Request → S → S × Answer
  inject_services cfg d target next s =
      or_refuse 502 "service metadata lookup failed"
        (n.service_ids cfg d.services target.host target.path s)
        (λ ids s. or_refuse 502 "service injection failed" (n.apply_services cfg ids next s) relay)

  abbrev pub inject : Config → Decision → Url → Request → S → S × Answer
  inject cfg d target r s =
      or_refuse 502 "credential injection target rejected"
        (s, validate_credential_injection_target d target.host)
        (λ _ s.
          or_refuse 502 "credential injection failed"
            (n.apply cfg d.credentials
              (record (clone_request_without_proxy_headers r) { url = some target }) s)
            (inject_services cfg d target))

  abbrev pub if_approved : S × Bool → (S → S × Answer) → S × Answer
  if_approved (s, true) k = k s
  if_approved (s, false) k = (s, refused 403 "request was not approved\n")

  -- denialResponse and authorizeDecision
  unfoldable pub authorize : Decision → Request → Url → S → (S → S × Answer) → S × Answer
  authorize d r target s k =
      if d.action == "deny"
      then (s, refused 403 "request denied by policy\n")
      else if d.action == "approval"
      then if_approved (n.approve r.method target d.rule.name d.rule.approval_note s) k
      else k s

  -- serveForward behind the target
  unfoldable pub forward_to : Config → Request → Url → S → S × Answer
  unfolding authorize
  forward_to cfg r target s =
      let d = evaluate cfg (record r { url = some target }) target.host in
      if is_proxy_self_target n.parse_ip cfg.server.listen target.host target.scheme
      then (s, refused 508 "proxy self-target denied")
      else authorize d r target s (inject cfg d target r)

  -- serveForward
  unfoldable pub serve_forward : Config → Request → S → S × Answer
  unfolding forward_to
  serve_forward cfg r s = elim (target_url r) [
    | err e ↦ (s, refused 400 e.format)
    | ok target ↦ forward_to cfg r target s
  ]
