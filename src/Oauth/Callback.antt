-- ===== src/Oauth/Callback.antt =====
-- internal/oauth/server.go: the handlers to which Google, Notion, Todoist, Slack and GitHub send a
-- user back after a login.
use scia.Base.{
  ℕ, ◌+◌, ◌*◌, suc, String, [], Bool, true, false, ◌==◌, Option, none, some, Result, ok, err, Error,
  errorf, if◌then◌else◌, ltb, ℤ, pos, negsuc,
}
use scia.Auth.Clock.{second}
use scia.Config.Ids.{is_set}
use scia.Config.Types.{Config, CredentialConfig}
use scia.Oauth.Clients.{
  notion_credential, google_credential, todoist_credential, slack_credential, github_credential,
}
use scia.Oauth.Exchange.{
  TokenResponse, TokenClient, exchange_code, exchange_notion_code, exchange_todoist_code,
  exchange_slack_code, exchange_github_code,
}
use scia.Oauth.State.{consume_state, storage_user_id, storage_token_key}
use scia.Oauth.Types.{StateInfo, Outside}
use scia.Oauth.Users.{UserRequest}

-- The data of callbackTemplate.
pub record CallbackPage : Type 0 where
  pub provider : String
  pub user : String
  pub credential_id : String
  pub token_kind : String
  pub token_value : String
  pub refresh_token : String
  pub access_token : String
  pub expires_in : ℤ
  pub stored : Bool

-- What a callback answers: http.Error, or the page.
pub data Answer : Type 0 where
  rejected : ℕ → Error → Answer
  shown : CallbackPage → Answer

abbrev pub reject : {S : Type 0} → ℕ → String → S → S × Answer
reject n text s = (s, rejected n (errorf text []))

abbrev pub or_reject :
    {S A : Type 0} → (Error → Answer) → S × Result A → (A → S → S × Answer) → S × Answer
or_reject answer (s, ok a) k = k a s
or_reject answer (s, err e) k = (s, answer e)

-- time.Since(t) > 10*time.Minute, in nanoseconds; the zero time is that long ago.
abbrev ten_minutes : ℕ
ten_minutes = 600 * second

unfoldable pub is_expired : ℤ → Option ℤ → Bool
is_expired now none = true
is_expired (pos n) (some (pos t)) = ltb (t + ten_minutes) n
is_expired (pos n) (some (negsuc t)) = ltb ten_minutes (n + suc t)
is_expired (negsuc n) (some (pos t)) = false
is_expired (negsuc n) (some (negsuc t)) = ltb (n + ten_minutes) t

-- The token that is kept of an answer: the refresh token if there is one.
abbrev pub kept_kind : TokenResponse → String
kept_kind token = if token.refresh_token == "" then "access_token" else "refresh_token"

abbrev pub kept_value : TokenResponse → String
kept_value token = if token.refresh_token == "" then token.access_token else token.refresh_token

abbrev page_of : String → StateInfo → String → String → TokenResponse → CallbackPage
page_of provider info kind value token = record {
  provider = provider;
  user = info.user;
  credential_id = info.credential_id;
  token_kind = kind;
  token_value = value;
  refresh_token = token.refresh_token;
  access_token = token.access_token;
  expires_in = token.expires_in;
  stored = true;
}

pub data Provider : Type 0 where
  google : Provider
  notion : Provider
  todoist : Provider
  slack : Provider
  github : Provider

module _ {S : Type 0} (o : Outside S) (c : TokenClient S) where
  -- The checks with which every callback begins.
  abbrev pub check_info :
      UserRequest → (StateInfo → String → S → S × Answer) → Option StateInfo → S → S × Answer
  check_info r k none s = reject 400 "invalid state" s
  check_info r k (some info) s =
      if is_expired (o.now s) info.created_at
      then reject 400 "state expired" s
      else if r.query "code" == ""
      then reject 400 "missing code" s
      else k info (r.query "code") s

  unfoldable pub accept_state :
      Config → String → UserRequest → (StateInfo → String → S → S × Answer) → S → S × Answer
  unfolding is_expired
  accept_state cfg provider r k s =
      if is_set (r.query "error")
      then reject 400 (r.query "error") s
      else or_reject (rejected 400) (consume_state o cfg (r.query "state") provider s)
          (check_info r k)

  -- The credential of the state, and the exchange of the code.
  abbrev pub exchanged :
      Option CredentialConfig
      → (CredentialConfig → S → S × Result TokenResponse)
      → (TokenResponse → S → S × Answer)
      → S
      → S × Answer
  exchanged none exchange k s = reject 400 "credential disappeared" s
  exchanged (some cred) exchange k s =
      or_reject (λ _. rejected 502 (errorf "token exchange failed" [])) (exchange cred s) k

  -- s.secrets.Put and the page
  unfoldable pub put_token :
      Config → String → StateInfo → String → String → String → TokenResponse → S → S × Answer
  unfolding storage_user_id storage_token_key
  put_token cfg provider info failure kind value token s =
      let id = storage_user_id cfg info in
      or_reject (λ _. rejected 500 (errorf failure []))
        (o.store.put id (storage_token_key cfg id info.credential_id kind) value s)
        (λ _ s. (s, shown (page_of provider info kind value token)))

  abbrev pub put_kept : Config → String → StateInfo → TokenResponse → S → S × Answer
  put_kept cfg provider info token =
      if kept_value token == ""
      then reject 502 "token response did not include refresh_token or access_token"
      else put_token cfg provider info "failed to store token" (kept_kind token) (kept_value token)
          token

  -- googleCallback, the handler of a request to a host
  unfoldable pub google_callback : Config → String → UserRequest → S → S × Answer
  unfolding google_credential exchange_code accept_state
  google_callback cfg host r = accept_state cfg "google" r λ info code.
      exchanged (google_credential cfg info.credential_id)
        (λ cred. exchange_code o c cfg host cred code info.redirect_uri)
        (λ token.
          put_token cfg "Google" info "failed to store refresh token" "refresh_token"
            token.refresh_token token)

  -- notionCallback
  unfoldable pub notion_callback : Config → String → UserRequest → S → S × Answer
  unfolding notion_credential exchange_notion_code accept_state
  notion_callback cfg host r = accept_state cfg "notion" r λ info code.
      exchanged (notion_credential cfg info.credential_id)
        (λ cred. exchange_notion_code o c cfg host cred code)
        (λ token.
          put_token cfg "Notion" info "failed to store refresh token" "refresh_token"
            token.refresh_token token)

  -- todoistCallback
  unfoldable pub todoist_callback : Config → UserRequest → S → S × Answer
  unfolding todoist_credential exchange_todoist_code accept_state
  todoist_callback cfg r = accept_state cfg "todoist" r λ info code.
      exchanged (todoist_credential cfg info.credential_id)
        (λ cred. exchange_todoist_code o c cfg cred code) (put_kept cfg "Todoist" info)

  -- slackCallback
  unfoldable pub slack_callback : Config → UserRequest → S → S × Answer
  unfolding slack_credential exchange_slack_code accept_state
  slack_callback cfg r = accept_state cfg "slack" r λ info code.
      exchanged (slack_credential cfg info.credential_id)
        (λ cred. exchange_slack_code o c cfg cred code info.redirect_uri)
        (put_kept cfg "Slack" info)

  -- githubCallback
  unfoldable pub github_callback : Config → UserRequest → S → S × Answer
  unfolding github_credential exchange_github_code accept_state
  github_callback cfg r = accept_state cfg "github" r λ info code.
      exchanged (github_credential cfg info.credential_id)
        (λ cred. exchange_github_code o c cfg cred code info.redirect_uri)
        (put_kept cfg "GitHub" info)

  abbrev pub callback : Provider → Config → String → UserRequest → S → S × Answer
  callback google cfg host r = google_callback cfg host r
  callback notion cfg host r = notion_callback cfg host r
  callback todoist cfg host r = todoist_callback cfg r
  callback slack cfg host r = slack_callback cfg r
  callback github cfg host r = github_callback cfg r

-- The provider's name in a state.
abbrev pub name_of : Provider → String
name_of google = "google"
name_of notion = "notion"
name_of todoist = "todoist"
name_of slack = "slack"
name_of github = "github"
