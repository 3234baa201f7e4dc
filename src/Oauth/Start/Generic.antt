-- ===== src/Oauth/Start/Generic.antt =====
-- internal/oauth/server.go: the start of a generic service's login, and of the login at a path.
use scia.Base.{
  ℕ, String, [], ◌∷◌, not, ◌&&◌, ◌==◌, Option, none, some, lookup, insert, if◌then◌else◌,
}
use scia.Config.Ids.{is_set, default_to, scope_param_name, scope_param_separator}
use scia.Config.Types.{Config, ServiceConfig, ServiceOauthConfig}
use scia.Go.{join}
use scia.Oauth.Clients.{service_client_value}
use scia.Oauth.Scopes.{oauth_scope_from_request, split_scope_values}
use scia.Oauth.State.{create_state}
use scia.Oauth.Types.{Outside}
use scia.Oauth.Users.{UserRequest}
use scia.Oauth.Start.{
  Query, Reply, bad_request, or_missing, provider_redirect_url, info_for, check_user, or_error,
  send_off,
}
use scia.Oauth.Start.Providers.{
  start_google, start_notion, start_todoist, start_slack, start_github,
}

-- A later parameter replaces an earlier one.
unfoldable pub set_all : Query → Query → Query
set_all [] q = q
set_all ((k, v) ∷ params) q = set_all params (insert k v q)

abbrev scope_query : ServiceOauthConfig → String → Query → Query
scope_query oauth scope q =
    if is_set (scope_param_name oauth) && is_set scope
    then insert (scope_param_name oauth)
        (join (scope_param_separator oauth) (split_scope_values scope)) q
    else q

abbrev pub generic_query : ServiceOauthConfig → String → String → String → String → Query
generic_query oauth client_id redirect_uri scope state = insert "state" state (
    set_all oauth.authorization_params (
      scope_query oauth scope (
        ("client_id", client_id)
        ∷ ("redirect_uri", redirect_uri)
        ∷ ("response_type", "code")
        ∷ [])))

abbrev pub oauth_of : Option ServiceConfig → Option ServiceOauthConfig
oauth_of none = none
oauth_of (some service) = service.oauth

module _ {S : Type 0} (o : Outside S) (itoa : ℕ → String) where
  -- startGeneric
  abbrev generic_redirect : Config → String → String → UserRequest → ServiceOauthConfig → String
  generic_redirect cfg host id r oauth =
      default_to (default_to (provider_redirect_url cfg host id) oauth.redirect_url)
        (r.query "redirect_uri")

  abbrev generic_login : Config → String → String → UserRequest → ServiceOauthConfig → S → S × Reply
  generic_login cfg host id r oauth s =
      let redirect_uri = generic_redirect cfg host id r oauth in
      or_error o itoa (service_client_value o oauth.client_id oauth.client_id_secret_ref s) (
        or_missing λ client_id s.
          or_error o itoa
            (s, oauth_scope_from_request itoa cfg oauth.credential_id id (r.query "scope") "" "")
            (λ scope.
              send_off o itoa cfg id (info_for (r.query "user") oauth.credential_id redirect_uri)
                oauth.auth_url (generic_query oauth client_id redirect_uri scope)))

  abbrev pub start_oauth :
      Config → String → String → UserRequest → Option ServiceOauthConfig → S → S × Reply
  start_oauth cfg host id r none = bad_request "unknown oauth service"
  start_oauth cfg host id r (some oauth) =
      if is_set (r.query "credential") && not (r.query "credential" == oauth.credential_id)
      then bad_request "credential does not match service"
      else check_user o itoa r cfg (generic_login cfg host id r oauth)

  unfoldable pub start_generic : Config → String → String → UserRequest → S → S × Reply
  unfolding service_client_value oauth_scope_from_request create_state set_all provider_redirect_url
      split_scope_values join scope_param_name scope_param_separator
  start_generic cfg host id r = start_oauth cfg host id r (oauth_of (lookup id cfg.server.services))

  -- Handler's routes of /oauth/{id}/start
  unfoldable pub start : Config → String → String → UserRequest → S → S × Reply
  unfolding start_google start_notion start_todoist start_slack start_github start_generic
  start cfg host id r =
      if id == "google"
      then start_google o itoa cfg host r
      else if id == "notion"
      then start_notion o itoa cfg host r
      else if id == "todoist"
      then start_todoist o itoa cfg r
      else if id == "slack"
      then start_slack o itoa cfg r
      else if id == "github"
      then start_github o itoa cfg r
      else start_generic cfg host id r
