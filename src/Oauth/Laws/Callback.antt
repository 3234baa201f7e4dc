-- ===== src/Oauth/Laws/Callback.antt =====
-- internal/oauth/server.go: what a callback has checked and stored when it shows its page.
use scia.Base.{
  ℕ, String, true, false, ◌==◌, Option, none, some, Result, ok, err, Error, ◌≡◌, ◌≢◌, refl, subst,
  ◌∙◌, [], errorf, eq_iff, not-false, if-cases, ne_of_test, if◌then◌else◌,
}
use scia.Auth.Laws.{
  Post, Keeps, Anything, Keeps-Anything, Keeps-bind, Keeps-return, Keeps-fail, Keeps-if,
}
use scia.Auth.Monad.{Op, lift, return, ◌>>=◌}
use scia.Config.Ids.{is_set}
use scia.Config.Types.{Config, CredentialConfig}
use scia.Oauth.Callback.{
  CallbackPage, Answer, rejected, shown, or_reject, is_expired, kept_value, Provider, google,
  notion, todoist, slack, github, check_info, accept_state, exchanged, put_token, put_kept,
  callback, google_callback, notion_callback, todoist_callback, slack_callback, github_callback,
  name_of,
}
use scia.Oauth.Clients.{
  notion_credential, google_credential, todoist_credential, slack_credential, github_credential,
}
use scia.Oauth.Exchange.{
  TokenResponse, TokenClient, exchange_code, exchange_notion_code, exchange_todoist_code,
  exchange_slack_code, exchange_github_code,
}
use scia.Oauth.State.{consume_state, storage_user_id, storage_token_key}
use scia.Oauth.Types.{StateInfo, Outside}
use scia.Oauth.Users.{UserRequest}

-- googleCallback and notionCallback store no empty refresh token, since their exchanges refuse it.
abbrev HasRefreshToken : TokenResponse → Type 0
HasRefreshToken token = token.refresh_token ≢ ""

-- What three operations and the test of the refresh token have in common.
required-HasRefreshToken :
    {S : Type 0} (id secret : Op S String) (post : String → String → Op S TokenResponse) (e : Error)
    → Keeps {S = S} Anything HasRefreshToken (
        id >>= λ x. secret >>= λ y.
        post x y >>= λ token. if token.refresh_token == "" then lift (err e) else return token)
required-HasRefreshToken {S} id secret post e =
    Keeps-bind {S = S} Anything Anything HasRefreshToken _ _ (Keeps-Anything id) λ x _.
      Keeps-bind {S = S} Anything Anything HasRefreshToken _ _ (Keeps-Anything secret) λ y _.
        Keeps-bind {S = S} Anything Anything HasRefreshToken _ _ (Keeps-Anything (post x y))
          λ token _.
            Keeps-if {S = S} Anything HasRefreshToken (token.refresh_token == "") _ _
              (λ _. Keeps-fail {S = S} Anything HasRefreshToken e)
              (λ f.
                Keeps-return {S = S} Anything HasRefreshToken token
                  (ne_of_test token.refresh_token "" f))

exchange_code-HasRefreshToken :
    {S : Type 0} (o : Outside S) (c : TokenClient S) (cfg : Config) (host : String)
    (cred : CredentialConfig) (code redirect_uri : String)
    → Keeps {S = S} Anything HasRefreshToken (exchange_code o c cfg host cred code redirect_uri)
unfolding exchange_code
exchange_code-HasRefreshToken o c cfg host cred code redirect_uri = required-HasRefreshToken _ _ _ _

exchange_notion_code-HasRefreshToken :
    {S : Type 0} (o : Outside S) (c : TokenClient S) (cfg : Config) (host : String)
    (cred : CredentialConfig) (code : String)
    → Keeps {S = S} Anything HasRefreshToken (exchange_notion_code o c cfg host cred code)
unfolding exchange_notion_code
exchange_notion_code-HasRefreshToken o c cfg host cred code = required-HasRefreshToken _ _ _ _

module _ {S : Type 0} (o : Outside S) (c : TokenClient S) (cfg : Config) (r : UserRequest) (s t : S)
    (p : CallbackPage) where
  abbrev Shows : S × Answer → Type 0
  Shows x = x ≡ (t, shown p)

  -- The page is about the user and the credential of the state, and the last thing done was to store
  -- its token, which is not empty, where the tokens of that user and credential are kept.
  abbrev Stores : StateInfo → Type 0
  Stores info =
      (p.user ≡ info.user)
      × (p.credential_id ≡ info.credential_id)
      × (p.token_value ≢ "")
      × ((u : S) × (o.store.put (storage_user_id cfg info)
              (storage_token_key cfg (storage_user_id cfg info) info.credential_id p.token_kind)
              p.token_value u
            ≡ (t, ok tt)))

  -- The state of the request was accepted for the provider, and was not older than ten minutes.
  abbrev pub IsStored : String → Type 0
  IsStored provider =
      (info : StateInfo) × (a : S) × (consume_state o cfg (r.query "state") provider s
        ≡ (a, ok (some info)))
      × (is_expired (o.now a) info.created_at ≡ false)
      × (r.query "error" ≡ "")
      × (r.query "code" ≢ "")
      × Stores info

  rejected-ne : (n : ℕ) (e : Error) → rejected n e ≢ shown p
  rejected-ne n e h = cc

  page-eq : (q : CallbackPage) → shown q ≡ shown p → q ≡ p
  page-eq q h = cc

  of_put :
      (provider : String) (info : StateInfo) (failure kind value : String) (token : TokenResponse)
      (u : S)
      → value ≢ ""
      → Shows (put_token o c cfg provider info failure kind value token u)
      → Stores info
  unfolding put_token
  of_put provider info failure kind value token u h f =
      of (o.store.put id (storage_token_key cfg id info.credential_id kind) value u) refl f
    where
      id : String
      id = storage_user_id cfg info

      page : CallbackPage
      page = record {
        provider = provider;
        user = info.user;
        credential_id = info.credential_id;
        token_kind = kind;
        token_value = value;
        refresh_token = token.refresh_token;
        access_token = token.access_token;
        expires_in = token.expires_in;
        stored = true;
      }

      on_page : (q : CallbackPage) → Type 0
      on_page q =
          (q.user ≡ info.user)
          × (q.credential_id ≡ info.credential_id)
          × (q.token_value ≢ "")
          × ((u : S) × (o.store.put id (storage_token_key cfg id info.credential_id q.token_kind)
                  q.token_value u
                ≡ (t, ok tt)))

      of :
          (x : S × Result (Unit {0}))
          → o.store.put id (storage_token_key cfg id info.credential_id kind) value u ≡ x
          → Shows (or_reject (λ _. rejected 500 (errorf failure [])) x (λ _ s. (s, shown page)))
          → Stores info
      of (v, ok x) e g =
          subst on_page (page-eq page (λ i. (g i).1))
            (refl, refl, h, (u, e ∙ (λ i. ((g i).0, ok tt))))
      of (v, err x) e g = absurd (rejected-ne 500 _ (λ i. (g i).1))

  of_kept :
      (provider : String) (info : StateInfo) (token : TokenResponse) (u : S)
      → Shows (put_kept o c cfg provider info token u)
      → Stores info
  of_kept provider info token u f =
      if-cases (λ (g : S → S × Answer). Shows (g u) → Stores info) (kept_value token == "") _ _
        (λ _ g. absurd (rejected-ne 502 _ (λ i. (g i).1)))
        (λ e g. of_put provider info _ _ (kept_value token) token u (ne_of_test _ "" e) g) f

  of_exchanged :
      (Q : TokenResponse → Type 0) (A : Type 0) (cred : Option CredentialConfig)
      (exchange : CredentialConfig → Op S TokenResponse) (k : TokenResponse → S → S × Answer)
      (u : S)
      → ((x : CredentialConfig) → Keeps {S = S} Anything Q (exchange x))
      → ((token : TokenResponse) (v : S) → Q token → Shows (k token v) → A)
      → Shows (exchanged o c cred exchange k u)
      → A
  unfolding Keeps
  of_exchanged Q A none exchange k u h next f = absurd (rejected-ne 400 _ (λ i. (f i).1))
  of_exchanged Q A (some cred) exchange k u h next f = of (exchange cred u) (h cred u tt) f
    where
      of :
          (x : S × Result TokenResponse)
          → Post {S = S} Anything Q x
          → Shows (or_reject (λ _. rejected 502 (errorf "token exchange failed" [])) x k)
          → A
      of (v, ok token) (_, q) g = next token v q g
      of (v, err e) _ g = absurd (rejected-ne 502 _ (λ i. (g i).1))

  of_accepted :
      (provider : String) (k : StateInfo → String → S → S × Answer)
      → ((info : StateInfo) (code : String) (a : S) → Shows (k info code a) → Stores info)
      → Shows (accept_state o c cfg provider r k s)
      → IsStored provider
  unfolding accept_state
  of_accepted provider k h f =
      if-cases (λ (x : S × Answer). Shows x → IsStored provider) (is_set (r.query "error")) _ _
        (λ _ g. absurd (rejected-ne 400 _ (λ i. (g i).1)))
        (λ e g. of (consume_state o cfg (r.query "state") provider s) refl (not-false _ e) g) f
    where
      of_info :
          (info : StateInfo) (a : S)
          → consume_state o cfg (r.query "state") provider s ≡ (a, ok (some info))
          → (r.query "error" == "") ≡ true
          → Shows (check_info o c r k (some info) a)
          → IsStored provider
      of_info info a x e g =
          if-cases (λ (y : S × Answer). Shows y → IsStored provider)
            (is_expired (o.now a) info.created_at) _ _
            (λ _ g. absurd (rejected-ne 400 _ (λ i. (g i).1)))
            (λ old.
              if-cases (λ (y : S × Answer). Shows y → IsStored provider) (r.query "code" == "") _ _
                (λ _ g. absurd (rejected-ne 400 _ (λ i. (g i).1)))
                (λ n g. (
                  info,
                  a,
                  x,
                  old,
                  (eq_iff (r.query "error") "").0 e,
                  ne_of_test _ "" n,
                  h info _ a g,
                )))
            g

      of :
          (x : S × Result (Option StateInfo))
          → consume_state o cfg (r.query "state") provider s ≡ x
          → (r.query "error" == "") ≡ true
          → Shows (or_reject (rejected 400) x (check_info o c r k))
          → IsStored provider
      of (a, ok (some info)) x e g = of_info info a x e g
      of (a, ok none) x e g = absurd (rejected-ne 400 _ (λ i. (g i).1))
      of (a, err y) x e g = absurd (rejected-ne 400 _ (λ i. (g i).1))

  of_login :
      (provider label : String) (cred : StateInfo → Option CredentialConfig)
      (exchange : StateInfo → String → CredentialConfig → Op S TokenResponse)
      → Shows (
          accept_state o c cfg provider r
            (λ info code.
              exchanged o c (cred info) (exchange info code) (put_kept o c cfg label info))
            s)
      → IsStored provider
  of_login provider label cred exchange f =
      of_accepted provider
        (λ info code. exchanged o c (cred info) (exchange info code) (put_kept o c cfg label info))
        (λ info code a.
          of_exchanged Anything (Stores info) (cred info) (exchange info code)
            (put_kept o c cfg label info) a (λ x. Keeps-Anything (exchange info code x))
            (λ token v _ g. of_kept label info token v g))
        f

  of_refresh :
      (provider label : String) (cred : StateInfo → Option CredentialConfig)
      (exchange : StateInfo → String → CredentialConfig → Op S TokenResponse)
      → ((info : StateInfo) (code : String) (x : CredentialConfig)
          → Keeps {S = S} Anything HasRefreshToken (exchange info code x))
      → Shows (
          accept_state o c cfg provider r
            (λ info code. exchanged o c (cred info) (exchange info code) (λ token.
              put_token o c cfg label info "failed to store refresh token" "refresh_token"
                token.refresh_token token))
            s)
      → IsStored provider
  of_refresh provider label cred exchange h f =
      let keep : StateInfo → TokenResponse → S → S × Answer = λ info token.
        put_token o c cfg label info "failed to store refresh token" "refresh_token"
          token.refresh_token token in
      of_accepted provider (λ info code. exchanged o c (cred info) (exchange info code) (keep info))
        (λ info code a.
          of_exchanged HasRefreshToken (Stores info) (cred info) (exchange info code) (keep info) a
            (h info code)
            (λ token v q g.
              of_put label info "failed to store refresh token" "refresh_token" token.refresh_token
                token v q g))
        f

  -- The callback of Google, Notion, Todoist, Slack or GitHub shows the page that says that a token was stored
  -- only if the provider reported no error and gave a code, the state that came with it was accepted
  -- for that provider and is not older than ten minutes, and the page's token, which is not empty,
  -- was stored as the last thing done, in the place that belongs to the user and the credential of
  -- that state, which are the ones that the page names.
  pub callback-IsStored :
      (provider : Provider) (host : String)
      → callback o c provider cfg host r s ≡ (t, shown p)
      → IsStored (name_of provider)
  unfolding google_callback notion_callback todoist_callback slack_callback github_callback
  callback-IsStored google host f =
      of_refresh "google" "Google" (λ info. google_credential cfg info.credential_id)
        (λ info code cred. exchange_code o c cfg host cred code info.redirect_uri)
        (λ info code cred. exchange_code-HasRefreshToken o c cfg host cred code info.redirect_uri) f
  callback-IsStored notion host f =
      of_refresh "notion" "Notion" (λ info. notion_credential cfg info.credential_id)
        (λ info code cred. exchange_notion_code o c cfg host cred code)
        (λ info code cred. exchange_notion_code-HasRefreshToken o c cfg host cred code) f
  callback-IsStored todoist host f =
      of_login "todoist" "Todoist" (λ info. todoist_credential cfg info.credential_id)
        (λ info code cred. exchange_todoist_code o c cfg cred code) f
  callback-IsStored slack host f =
      of_login "slack" "Slack" (λ info. slack_credential cfg info.credential_id)
        (λ info code cred. exchange_slack_code o c cfg cred code info.redirect_uri) f
  callback-IsStored github host f =
      of_login "github" "GitHub" (λ info. github_credential cfg info.credential_id)
        (λ info code cred. exchange_github_code o c cfg cred code info.redirect_uri) f
