-- ===== src/Auth/Laws/Apply.antt =====
-- internal/auth/credential.go: the requests that Apply lets through, and its errors.
use scia.Base.{
  String, List, [], ◌∷◌, true, false, ◌==◌, contains, Option, none, some, ◌≡◌, ◌≢◌, refl, sym, ◌∙◌,
  ap, append, eq_iff, if-cases,
}
use scia.Auth.Inject.{
  apply_token_type, notion_headers, apply_one, apply, apply_found, with_bearer, set_bearer,
  set_basic, set_header, set_default_header,
}
use scia.Auth.Secrets.{env, env_param}
use scia.Auth.Laws.{
  Keeps, Post, Post-state, Anything, Keeps-bind, Keeps-return, Keeps-weaken, Keeps-if,
}
use scia.Auth.Laws.Kept.{Sound, IsToken, IsFirstToken, Rely}
use scia.Auth.Laws.Rotating.{
  todoist_refresh_token-Sound, slack_user_token-Sound, github_oauth_token-Sound,
  notion_refresh_token-Sound,
}
use scia.Auth.Laws.Tokens.{
  client_credentials_token-Sound, google_refresh_token-Sound, failing-Sound,
}
use scia.Auth.Monad.{Op}
use scia.Auth.Types.{Injector, Outside}
use scia.Config.Lookup.{credential_by_id}
use scia.Config.Types.{Config, CredentialConfig}
use scia.Go.Http.{header_get, header_get-header_set, header_get-header_set_same, Request}

-- The credential types whose value is a token of a token endpoint.
abbrev pub token_types : List String
token_types =
    "oauth2-client-credentials" ∷ "google-oauth-refresh-token" ∷ "notion-oauth-refresh-token"
    ∷ "todoist-oauth-refresh-token" ∷ "slack-user-oauth-token" ∷ "github-oauth-token" ∷ []

-- The request carries a bearer token that is not empty.
abbrev pub HasBearer : Request → Type 0
HasBearer r =
    (token : String) × (token ≢ "") × (header_get r.header "Authorization" ≡ append "Bearer " token)

-- What holds of the request if the credential is of one of those types.
abbrev pub HasBearerFor : CredentialConfig → Request → Type 0
HasBearerFor cred r = contains token_types cred.type ≡ true → HasBearer r

-- A credential of another type, about which nothing is said.
other_type :
    (cred : CredentialConfig) (type : String) (r : Request)
    → contains token_types type ≡ false
    → (cred.type == type) ≡ true
    → HasBearerFor cred r
other_type cred type r h e c =
    absurd (true-ne (sym c ∙ ap (contains token_types) ((eq_iff cred.type type).0 e) ∙ h))
  where
    true-ne : ¬ (true ≡ false)
    true-ne h = cc

module _ {S : Type 0} (o : Outside S) where
  set_bearer-HasBearer :
      (r : Request) (token : String) → token ≢ "" → HasBearer (set_bearer r token)
  set_bearer-HasBearer r token u =
      (token, u, header_get-header_set_same r.header "Authorization" (append "Bearer " token))

  with_bearer-Sound :
      (cred : CredentialConfig) (r : Request) (m : Op (Injector S) String)
      → Keeps Sound IsToken m
      → Keeps Sound (HasBearerFor cred) (with_bearer o r m)
  with_bearer-Sound cred r m h =
      Keeps-bind Sound IsToken (HasBearerFor cred) _ _ h
        (λ token u. Keeps-return Sound (HasBearerFor cred) _ (λ _. set_bearer-HasBearer r token u))

  notion_headers-Sound :
      (cred : CredentialConfig) (r : Request) (pair : String × String)
      → IsFirstToken o pair
      → Keeps Sound (HasBearerFor cred) (notion_headers o r pair)
  notion_headers-Sound cred r (token, version) u =
      Keeps-return Sound (HasBearerFor cred)
        (set_default_header "Notion-Version" version (set_bearer r token))
        (λ _. (
          token,
          u,
          default-header (set_bearer r token) version
              ∙ header_get-header_set_same r.header "Authorization" (append "Bearer " token),
        ))
    where
      default-header :
          (r : Request) (version : String)
          → header_get (set_default_header "Notion-Version" version r).header "Authorization"
            ≡ header_get r.header "Authorization"
      default-header r version =
          if-cases
            (λ (q : Request).
              header_get q.header "Authorization" ≡ header_get r.header "Authorization")
            (header_get r.header "Notion-Version" == "") _ _
            (λ _. header_get-header_set r.header "Notion-Version" version "Authorization")
            (λ _. refl)

  -- The types of token endpoints.
  token_type-Sound :
      Rely o
      → (cfg : Config) (cred : CredentialConfig) (r : Request)
      → Keeps Sound (HasBearerFor cred) (apply_token_type o cfg cred r)
  token_type-Sound rely cfg cred r =
      Keeps-if Sound (HasBearerFor cred) (cred.type == "oauth2-client-credentials") _ _
        (λ _. with_bearer-Sound cred r _ (client_credentials_token-Sound o cred))
        (λ _.
          Keeps-if Sound (HasBearerFor cred) (cred.type == "google-oauth-refresh-token") _ _
            (λ _. with_bearer-Sound cred r _ (google_refresh_token-Sound o cfg cred))
            (λ _.
              Keeps-if Sound (HasBearerFor cred) (cred.type == "notion-oauth-refresh-token") _ _
                (λ _.
                  Keeps-bind Sound (IsFirstToken o) (HasBearerFor cred) _ _
                    (notion_refresh_token-Sound o cfg cred) (notion_headers-Sound cred r))
                (λ _.
                  Keeps-if Sound (HasBearerFor cred) (cred.type == "todoist-oauth-refresh-token") _
                    _
                    (λ _. with_bearer-Sound cred r _ (todoist_refresh_token-Sound o rely cfg cred))
                    (λ _.
                      Keeps-if Sound (HasBearerFor cred) (cred.type == "slack-user-oauth-token") _ _
                        (λ _. with_bearer-Sound cred r _ (slack_user_token-Sound o rely cfg cred))
                        (λ _.
                          Keeps-if Sound (HasBearerFor cred) (cred.type == "github-oauth-token") _ _
                            (λ _.
                              with_bearer-Sound cred r _ (github_oauth_token-Sound o rely cfg cred))
                            (λ _. failing-Sound o (HasBearerFor cred) _ _))))))

  apply_one-Sound :
      Rely o
      → (cfg : Config) (cred : CredentialConfig) (r : Request)
      → Keeps Sound (HasBearerFor cred) (apply_one o cfg cred r)
  unfolding apply_one
  apply_one-Sound rely cfg cred r =
      Keeps-if Sound (HasBearerFor cred) (cred.type == "bearer") _ _
        (λ e.
          Keeps-return Sound (HasBearerFor cred) _
            (other_type cred "bearer" (set_bearer r (env o cred.value)) refl e))
        (λ _.
          Keeps-if Sound (HasBearerFor cred) (cred.type == "basic") _ _
            (λ e. Keeps-return Sound (HasBearerFor cred) _ (
              other_type cred "basic"
                (set_basic o
                  (append (env_param o cred "username") (append ":" (env_param o cred "password")))
                  r)
                refl e))
            (λ _.
              Keeps-if Sound (HasBearerFor cred) (cred.type == "static-header") _ _
                (λ e.
                  Keeps-if Sound (HasBearerFor cred) (cred.header == "") _ _
                    (λ _. failing-Sound o (HasBearerFor cred) _ _)
                    (λ _. Keeps-return Sound (HasBearerFor cred) _ (
                      other_type cred "static-header" (set_header cred.header (env o cred.value) r)
                        refl e)))
                (λ _. token_type-Sound rely cfg cred r)))

  -- Where the cache holds no empty token, and other calls keep it so: a credential that needs a token
  -- endpoint is applied with an error, or by a bearer token that is not empty, and the cache still holds
  -- no empty token.
  pub apply_one-HasBearer :
      Rely o
      → (cfg : Config) (cred : CredentialConfig) (r : Request) (i : Injector S) → Sound i
      → Post Sound (HasBearerFor cred) (apply_one o cfg cred r i)
  unfolding Keeps
  apply_one-HasBearer rely cfg cred r i h = apply_one-Sound rely cfg cred r i h

  apply-Keeps :
      Rely o
      → (cfg : Config) (ids : List String) (r : Request) → Keeps Sound Anything (apply o cfg ids r)
  unfolding apply
  apply-Keeps rely cfg [] r = Keeps-return Sound Anything _ tt
  apply-Keeps rely cfg (id ∷ ids) r =
      Keeps-bind Sound Anything Anything _ _ (found (credential_by_id cfg id))
        (λ q _. apply-Keeps rely cfg ids q)
    where
      found : (c : Option CredentialConfig) → Keeps Sound Anything (apply_found o cfg id c r)
      found none = failing-Sound o Anything _ _
      found (some cred) = Keeps-weaken Sound _ _ (apply_one-Sound rely cfg cred r)

  -- Apply, whether it succeeds or fails, keeps the invariant of the cache: no entry has an empty token,
  -- if the other calls keep it, which run while it waits for a mutex.
  pub apply-Sound :
      Rely o
      → (cfg : Config) (ids : List String) (r : Request) (i : Injector S) → Sound i
      → Sound (apply o cfg ids r i).0
  unfolding Keeps
  apply-Sound rely cfg ids r i h =
      Post-state (Sound {S = S}) Anything (apply o cfg ids r i) (apply-Keeps rely cfg ids r i h)
