-- ===== src/Proxy/Admin.antt =====
-- internal/proxy/server.go: the admin interface. Its handlers of the certificate, of the credentials'
-- status, of the tokens and of revocation are an interface.
use scia.Base.{String, List, Bool, true, false, not, ◌||◌, ◌==◌, Option, none, some, if◌then◌else◌}
use scia.Approval.{Manager, Status, approved, denied, resolve, list}
use scia.Approval
use scia.Config.Request.{admin_token, is_authorized_bearer_token}
use scia.Config.Types.{Config}
use scia.Go.{trim_prefix, has_prefix, cut}
use scia.Go.Http.{Request, Url}
use scia.Proxy.Forward.{Response}
use scia.Proxy.Tokens.{reply, no_content}

-- The handlers behind the routes, over the world behind the stores, and the list of approvals as text.
-- `put_token` decodes the body for Proxy.Tokens.serve_admin_put_token.
pub record AdminHandlers (S : Type 0) : Type 0 where
  pub ca_pem : S → S × Response
  pub credential_status : Config → Request → S → S × Response
  pub put_token : Config → Request → S → S × Response
  pub revoke_token : Config → Request → S → S × Response
  pub show : List Approval.Request → String

pub record AdminState (S : Type 0) : Type 0 where
  pub world : S
  pub approvals : Manager

abbrev pub not_found : Response
not_found = reply 404 "404 page not found"

module _ {S : Type 0} (getenv : String → String) (h : AdminHandlers S) where
  abbrev pub on_world : AdminState S → (S → S × Response) → AdminState S × Response
  on_world s f = (record s { world = (f s.world).0 }, (f s.world).1)

  abbrev pub resolved : AdminState S → Manager × Bool → AdminState S × Response
  resolved s (m, true) = (record s { approvals = m }, no_content)
  resolved s (m, false) = (s, reply 404 "approval request not found")

  abbrev pub decide_approval : AdminState S → Option (String × String) → AdminState S × Response
  decide_approval s none = (s, not_found)
  decide_approval s (some (id, action)) =
      if action == "approve"
      then resolved s (resolve s.approvals id approved)
      else if action == "deny"
      then resolved s (resolve s.approvals id denied)
      else (s, not_found)

  -- The switch of serveAdmin.
  unfoldable pub route_get : Config → Request → String → AdminState S → AdminState S × Response
  route_get cfg r path s =
      if path == "/_scia/healthz"
      then (s, no_content)
      else if path == "/_scia/ca.pem"
      then on_world s h.ca_pem
      else if path == "/_scia/approvals"
      then (s, reply 200 (h.show (list s.approvals)))
      else if path == "/_scia/credentials/status"
      then on_world s (h.credential_status cfg r)
      else (s, not_found)

  unfoldable pub route_post : Config → Request → String → AdminState S → AdminState S × Response
  unfolding resolve cut
  route_post cfg r path s =
      if path == "/_scia/tokens" || path == "/_scia/secrets"
      then on_world s (h.put_token cfg r)
      else if path == "/_scia/tokens/revoke" || path == "/_scia/secrets/revoke"
      then on_world s (h.revoke_token cfg r)
      else if has_prefix path "/_scia/approvals/"
      then decide_approval s (cut (trim_prefix path "/_scia/approvals/") b'/')
      else (s, not_found)

  unfoldable pub route : Config → Request → String → AdminState S → AdminState S × Response
  unfolding route_get route_post
  route cfg r path s =
      if r.method == "GET"
      then route_get cfg r path s
      else if r.method == "POST"
      then route_post cfg r path s
      else (s, not_found)

  abbrev pub path_of : Option Url → String
  path_of none = ""
  path_of (some u) = u.path

  abbrev pub with_token : Config → Request → Option String → AdminState S → AdminState S × Response
  with_token cfg r none s = (s, not_found)
  with_token cfg r (some token) s =
      if not (is_authorized_bearer_token r token)
      then (s, reply 401 "unauthorized")
      else route cfg r (path_of r.url) s

  -- serveAdmin
  unfoldable pub serve_admin : Config → Request → AdminState S → AdminState S × Response
  unfolding route admin_token is_authorized_bearer_token
  serve_admin cfg r s = with_token cfg r (admin_token getenv cfg.server.admin_token) s
