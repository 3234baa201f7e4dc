-- ===== src/Oauth/Laws/Start.antt =====
-- internal/oauth/server.go: who may start a login that stores its token for a user.
use scia.Base.{
  ℕ, String, true, false, not, ◌&&◌, ◌==◌, Option, none, some, Error, ◌≡◌, ◌≢◌, refl, if-cases,
  ne_of_test, not-false, not-true, lookup,
}
use scia.Config.Ids.{is_set}
use scia.Config.Lookup.{has_user}
use scia.Config.Types.{Config, ServiceOauthConfig}
use scia.Oauth.Start.{Query, Reply, failed, redirected, after_verdict, check_user}
use scia.Oauth.Start.Generic.{oauth_of, start_oauth, start_generic, start}
use scia.Oauth.Start.Providers.{
  start_google, start_notion, start_todoist, start_slack, start_github,
}
use scia.Oauth.Types.{Outside}
use scia.Oauth.Users.{UserRequest, Verdict, granted, refused, authorize_dynamic_user_request}

failed-ne : (n : ℕ) (e : Error) (url : String) (q : Query) → failed n e ≢ redirected url q
failed-ne n e url q h = cc

module _ {S : Type 0} (o : Outside S) (itoa : ℕ → String) (r : UserRequest) (cfg : Config) (s t : S)
    (url : String) (q : Query) where
  -- The handler has answered with the redirection.
  abbrev Sends : (S → S × Reply) → Type 0
  Sends f = f s ≡ (t, redirected url q)

  -- The request names a user that the configuration accepts, and the test of users grants it.
  abbrev pub IsAuthorized : Type 0
  IsAuthorized =
      (r.query "user" ≢ "")
      × (has_user cfg (r.query "user") ≡ true)
      × ((u : S) × (authorize_dynamic_user_request o r cfg (r.query "user") s ≡ (u, granted)))

  of_verdict :
      (x : S × Verdict) (k : S → S × Reply)
      → after_verdict o itoa x k ≡ (t, redirected url q)
      → (u : S) × (x ≡ (u, granted))
  of_verdict (u, granted) k h = (u, refl)
  of_verdict (u, refused n text) k h = absurd (failed-ne n _ url q (λ i. (h i).1))

  check_user-IsAuthorized :
      (k : S → S × Reply)
      → cfg.server.secrets.mode ≡ "kubernetes"
      → Sends (check_user o itoa r cfg k)
      → IsAuthorized
  unfolding check_user
  check_user-IsAuthorized k m h =
      if-cases (λ (x : S × Reply). x ≡ (t, redirected url q) → IsAuthorized)
        (not (cfg.server.secrets.mode == "kubernetes")) _ _ (λ e _. absurd (mode-ne (not-true _ e)))
        (λ _.
          if-cases (λ (x : S × Reply). x ≡ (t, redirected url q) → IsAuthorized)
            (r.query "user" == "") _ _ (λ _ g. absurd (failed-ne 400 _ url q (λ i. (g i).1)))
            (λ e.
              if-cases (λ (x : S × Reply). x ≡ (t, redirected url q) → IsAuthorized)
                (not (has_user cfg (r.query "user"))) _ _
                (λ _ g. absurd (failed-ne 400 _ url q (λ i. (g i).1)))
                (λ f g. (ne_of_test (r.query "user") "" e, not-false _ f, of_verdict _ k g))))
        h
    where
      mode-ne : (cfg.server.secrets.mode == "kubernetes") ≢ false
      mode-ne e = ne_of_test cfg.server.secrets.mode "kubernetes" e m

  start_oauth-IsAuthorized :
      (host id : String) (oauth : Option ServiceOauthConfig)
      → cfg.server.secrets.mode ≡ "kubernetes"
      → Sends (start_oauth o itoa cfg host id r oauth)
      → IsAuthorized
  start_oauth-IsAuthorized host id none m h = absurd (failed-ne 400 _ url q (λ i. (h i).1))
  start_oauth-IsAuthorized host id (some oauth) m h =
      if-cases (λ f. Sends f → IsAuthorized)
        (is_set (r.query "credential") && not (r.query "credential" == oauth.credential_id)) _ _
        (λ _ g. absurd (failed-ne 400 _ url q (λ i. (g i).1)))
        (λ _ g. check_user-IsAuthorized _ m g) h

  -- In kubernetes mode, where tokens are stored by user, a login of any provider or service only
  -- starts, that is, a request is only redirected to a login page, if it names a user that the
  -- configuration accepts and the test of users grants it, which asks the users without an entry in
  -- the configuration for their token.
  pub start-IsAuthorized :
      (host id : String)
      → cfg.server.secrets.mode ≡ "kubernetes"
      → start o itoa cfg host id r s ≡ (t, redirected url q)
      → IsAuthorized
  unfolding start start_google start_notion start_todoist start_slack start_github start_generic
  start-IsAuthorized host id m h =
      if-cases (λ f. Sends f → IsAuthorized) (id == "google") _ _ (λ _. check_user-IsAuthorized _ m)
        (λ _.
          if-cases (λ f. Sends f → IsAuthorized) (id == "notion") _ _
            (λ _. check_user-IsAuthorized _ m)
            (λ _.
              if-cases (λ f. Sends f → IsAuthorized) (id == "todoist") _ _
                (λ _. check_user-IsAuthorized _ m)
                (λ _.
                  if-cases (λ f. Sends f → IsAuthorized) (id == "slack") _ _
                    (λ _. check_user-IsAuthorized _ m)
                    (λ _.
                      if-cases (λ f. Sends f → IsAuthorized) (id == "github") _ _
                        (λ _. check_user-IsAuthorized _ m)
                        (λ _.
                          start_oauth-IsAuthorized host id
                            (oauth_of (lookup id cfg.server.services)) m)))))
        h
