-- ===== src/Auth/Laws/Rotating.antt =====
-- internal/auth/credential.go: the tokens of the providers that replace refresh tokens, and the
-- invariant of the cache.
use scia.Base.{String, ◌||◌, ◌==◌, Option}
use scia.Auth.Laws.{Keeps, Anything, Keeps-bind, Keeps-return, Keeps-if}
use scia.Auth.Laws.Kept.{
  Sound, IsToken, IsFirstToken, Rely, secret_value-Sound, rotating_secret_value-Sound,
  service_client_value-Sound, or_cached-Sound, or_cached_locked-Sound, notion_json_token-Sound,
}
use scia.Auth.Laws.Tokens.{
  KeepsAll, failing-Sound, client_id-Sound, client_secret-Sound, rotate-Sound,
  or_stored_access-Sound, by_broker-Sound, by_client-Sound,
}
use scia.Auth.Monad.{◌>>=◌, Op}
use scia.Auth.Providers.{Client, rotate}
use scia.Auth.Providers.Github.{github_client_of, github_refresh, github_oauth_token}
use scia.Auth.Providers.Notion.{notion_client_of, notion_refresh, notion_refresh_token}
use scia.Auth.Providers.Slack.{slack_client_of, slack_refresh, slack_user_token}
use scia.Auth.Providers.Todoist.{todoist_request, todoist_client_of, todoist_refresh_token}
use scia.Auth.Secrets.{
  env_param, todoist_client_value, slack_client_value, github_client_value, notion_client_value,
}
use scia.Auth.Types.{Injector, Outside}
use scia.Config.Ids.{is_set}
use scia.Config.Types.{Config, CredentialConfig}

module _ {S : Type 0} (o : Outside S) where
  todoist_client_value-Sound : KeepsAll o (todoist_client_value o)
  unfolding todoist_client_value
  todoist_client_value-Sound = service_client_value-Sound o

  slack_client_value-Sound : KeepsAll o (slack_client_value o)
  unfolding slack_client_value
  slack_client_value-Sound = service_client_value-Sound o

  github_client_value-Sound : KeepsAll o (github_client_value o)
  unfolding github_client_value
  github_client_value-Sound = service_client_value-Sound o

  notion_client_value-Sound : KeepsAll o (notion_client_value o)
  unfolding notion_client_value
  notion_client_value-Sound = service_client_value-Sound o

  todoist_request-Sound :
      (cfg : Config) (cred : CredentialConfig) (client : Option Client)
      (id secret refresh_token : String)
      → Keeps Sound IsToken (todoist_request o cfg cred client id secret refresh_token)
  todoist_request-Sound cfg cred client id secret refresh_token =
      Keeps-if Sound IsToken (is_set (env_param o cred "token_broker_url")) _ _
        (λ _.
          Keeps-if Sound IsToken (refresh_token == "") _ _ (λ _. failing-Sound o IsToken _ _)
            (λ _. by_broker-Sound o _ _ _ _))
        (λ _.
          Keeps-if Sound IsToken (id == "" || secret == "" || refresh_token == "") _ _
            (λ _. failing-Sound o IsToken _ _) (λ _. by_client-Sound o _ _ _ _ _ _))

  pub todoist_refresh_token-Sound :
      Rely o
      → (cfg : Config) (cred : CredentialConfig)
      → Keeps Sound IsToken (todoist_refresh_token o cfg cred)
  unfolding todoist_refresh_token
  todoist_refresh_token-Sound rely cfg cred = or_cached_locked-Sound o rely cred.id _ (
      or_stored_access-Sound o cfg cred _ (
        Keeps-bind Sound Anything IsToken _ _
          (client_id-Sound o (todoist_client_value o) cred (todoist_client_of cfg cred)
            todoist_client_value-Sound)
          (λ id _.
            Keeps-bind Sound Anything IsToken _ _
              (client_secret-Sound o (todoist_client_value o) cred (todoist_client_of cfg cred)
                todoist_client_value-Sound)
              (λ secret _.
                Keeps-bind Sound Anything IsToken _ _
                  (secret_value-Sound o cfg cred "refresh_token")
                  (λ token _.
                    todoist_request-Sound cfg cred (todoist_client_of cfg cred) id secret token)))))

  slack_refresh-Sound :
      (cfg : Config) (cred : CredentialConfig) (client : Option Client) (refresh_token : String)
      → Keeps Sound IsToken (slack_refresh o cfg cred client refresh_token)
  slack_refresh-Sound cfg cred client refresh_token =
      Keeps-if Sound IsToken (refresh_token == "") _ _ (λ _. failing-Sound o IsToken _ _)
        (λ _.
          Keeps-if Sound IsToken (is_set (env_param o cred "token_broker_url")) _ _
            (λ _. by_broker-Sound o _ _ _ _)
            (λ _.
              Keeps-bind Sound Anything IsToken _ _
                (client_id-Sound o (slack_client_value o) cred client slack_client_value-Sound)
                (λ id _.
                  Keeps-bind Sound Anything IsToken _ _
                    (client_secret-Sound o (slack_client_value o) cred client
                      slack_client_value-Sound)
                    (λ secret _.
                      Keeps-if Sound IsToken (id == "" || secret == "") _ _
                        (λ _. failing-Sound o IsToken _ _) (λ _. by_client-Sound o _ _ _ _ _ _)))))

  pub slack_user_token-Sound :
      Rely o
      → (cfg : Config) (cred : CredentialConfig) → Keeps Sound IsToken (slack_user_token o cfg cred)
  unfolding slack_user_token
  slack_user_token-Sound rely cfg cred = or_cached_locked-Sound o rely cred.id _ (
      or_stored_access-Sound o cfg cred _ (
        Keeps-bind Sound Anything IsToken _ _ (secret_value-Sound o cfg cred "refresh_token")
          (λ token _. slack_refresh-Sound cfg cred (slack_client_of cfg cred) token)))

  github_refresh-Sound :
      (cfg : Config) (cred : CredentialConfig) (client : Option Client) (refresh_token : String)
      → Keeps Sound IsToken (github_refresh o cfg cred client refresh_token)
  github_refresh-Sound cfg cred client refresh_token =
      Keeps-if Sound IsToken (refresh_token == "") _ _ (λ _. failing-Sound o IsToken _ _)
        (λ _.
          Keeps-if Sound IsToken (is_set (env_param o cred "token_broker_url")) _ _
            (λ _. by_broker-Sound o _ _ _ _)
            (λ _.
              Keeps-bind Sound Anything IsToken _ _
                (client_id-Sound o (github_client_value o) cred client github_client_value-Sound)
                (λ id _.
                  Keeps-bind Sound Anything IsToken _ _
                    (client_secret-Sound o (github_client_value o) cred client
                      github_client_value-Sound)
                    (λ secret _.
                      Keeps-if Sound IsToken (id == "" || secret == "") _ _
                        (λ _. failing-Sound o IsToken _ _) (λ _. by_client-Sound o _ _ _ _ _ _)))))

  pub github_oauth_token-Sound :
      Rely o
      → (cfg : Config) (cred : CredentialConfig)
      → Keeps Sound IsToken (github_oauth_token o cfg cred)
  unfolding github_oauth_token
  github_oauth_token-Sound rely cfg cred = or_cached_locked-Sound o rely cred.id _ (
      or_stored_access-Sound o cfg cred _ (
        Keeps-bind Sound Anything IsToken _ _ (secret_value-Sound o cfg cred "refresh_token")
          (λ token _. github_refresh-Sound cfg cred (github_client_of cfg cred) token)))

  notion_rotate-Sound :
      (cfg : Config) (cred : CredentialConfig) (m : Op (Injector S) (String × String))
      → Keeps Sound (IsFirstToken o) m
      → Keeps Sound IsToken (m >>= rotate o cfg cred)
  notion_rotate-Sound cfg cred m h =
      Keeps-bind Sound (IsFirstToken o) IsToken _ _ h (λ pair u. rotate-Sound o cfg cred pair u)

  notion_refresh-Sound :
      (cfg : Config) (cred : CredentialConfig) (client : Option Client) (refresh_token : String)
      → Keeps Sound IsToken (notion_refresh o cfg cred client refresh_token)
  notion_refresh-Sound cfg cred client refresh_token =
      Keeps-if Sound IsToken (refresh_token == "") _ _ (λ _. failing-Sound o IsToken _ _)
        (λ _.
          Keeps-if Sound IsToken (is_set (env_param o cred "token_broker_url")) _ _
            (λ _. notion_rotate-Sound cfg cred _ (notion_json_token-Sound o _ _ _ _ _ _ _))
            (λ _.
              Keeps-bind Sound Anything IsToken _ _
                (client_id-Sound o (notion_client_value o) cred client notion_client_value-Sound)
                (λ id _.
                  Keeps-bind Sound Anything IsToken _ _
                    (client_secret-Sound o (notion_client_value o) cred client
                      notion_client_value-Sound)
                    (λ secret _.
                      Keeps-if Sound IsToken (id == "" || secret == "") _ _
                        (λ _. failing-Sound o IsToken _ _)
                        (λ _.
                          notion_rotate-Sound cfg cred _
                            (notion_json_token-Sound o _ _ _ _ _ _ _))))))

  pub notion_refresh_token-Sound :
      (cfg : Config) (cred : CredentialConfig)
      → Keeps Sound (IsFirstToken o) (notion_refresh_token o cfg cred)
  unfolding notion_refresh_token
  notion_refresh_token-Sound cfg cred =
      Keeps-bind Sound IsToken (IsFirstToken o) _ _
        (or_cached-Sound o cred.id _ (
          Keeps-bind Sound Anything IsToken _ _
            (rotating_secret_value-Sound o cfg cred "refresh_token")
            (λ token _. notion_refresh-Sound cfg cred (notion_client_of cfg cred) token)))
        (λ token u. Keeps-return Sound (IsFirstToken o) _ u)
