-- ===== src/Tests/Callback.antt =====
-- internal/oauth/server.go: a login of Slack that comes back, on concrete input.
use scia.Base.{String, [], ◌∷◌, ◌==◌, some, true, ok, pos, ◌≡◌, refl, if◌then◌else◌}
use scia.Config.Types.{Config, CredentialConfig}
use scia.Oauth.Callback.{
  CallbackPage, slack, callback, accept_state, put_token, slack_callback, shown,
}
use scia.Oauth.Exchange.{TokenClient, TokenResponse, exchange_slack_code, post_body}
use scia.Oauth.Laws.Signed.{IsSigned, consume_state-IsSigned}
use scia.Oauth.Laws.Callback.{IsStored, callback-IsStored}
use scia.Oauth.State.{consume_state}
use scia.Oauth.Types.{StateInfo}
use scia.Oauth.Users.{UserRequest}
use scia.Tests.Codec.{escape, unescape, marshal, unmarshal}
use scia.Tests.Fixture.{cfg}
use scia.Tests.Oauth.{World, outside, with_token}

-- An endpoint that answers every code with the same tokens.
abbrev tokens : TokenResponse
tokens = record {
  ok = some true;
  access_token = "a";
  refresh_token = "";
  token_type = "user";
  expires_in = pos 0;
  error = "";
  error_desc = "";
}

abbrev client : TokenClient World
client = record {
  request_url = λ url.
      ok (record {
        scheme = "https";
        host = "slack.com";
        path = "/";
        raw_path = "";
        raw_query = "";
      });
  send = λ post w. (w, ok (record { status_code = 200; status = "200 OK"; body = "" }));
  encode_form = λ form. "";
  marshal = λ form. "";
  base64 = λ text. text;
  decode = λ body. ok tokens;
}

abbrev slack_cred : CredentialConfig
slack_cred = record {
  id = "chat";
  type = "slack-user-oauth-token";
  header = "";
  value = "";
  params = ("client_id", "id") ∷ ("client_secret", "secret") ∷ [];
}

abbrev with_slack : Config
with_slack = record cfg { credentials = slack_cred ∷ [] }

-- What createState makes for a login of this credential.
abbrev state : String
state = "pi-sslack-sann-schat-s-spi-sn-s.secretpi-sslack-sann-schat-s-spi-sn-s"

abbrev back : UserRequest
back = record (with_token "") {
  query = λ key. if key == "code" then "c" else if key == "state" then state else "";
}

abbrev page : CallbackPage
page = record {
  provider = "Slack";
  user = "ann";
  credential_id = "chat";
  token_kind = "access_token";
  token_value = "a";
  refresh_token = "";
  access_token = "a";
  expires_in = pos 0;
  stored = true;
}

comes_back :
    callback outside client slack with_slack "h" back []
    ≡ (("chat/access_token", "a") ∷ [], shown page)
unfolding scia.Tests.Codec.read_field scia.Config.Lookup.find_credential slack_callback accept_state
    put_token consume_state exchange_slack_code post_body scia.Auth.Monad.◌>>=◌
    scia.Auth.Monad.return scia.Auth.Monad.lift escape unescape marshal unmarshal
comes_back = refl

callback-IsStored_example :
    IsStored outside client with_slack back [] (("chat/access_token", "a") ∷ []) page "slack"
callback-IsStored_example =
    callback-IsStored outside client with_slack back [] (("chat/access_token", "a") ∷ []) page slack
      "h" comes_back

abbrev info : StateInfo
info = record {
  user = "ann";
  credential_id = "chat";
  redirect_uri = "";
  created_at = some (pos 1000000000);
}

accepted : consume_state outside with_slack state "slack" [] ≡ ([], ok (some info))
unfolding scia.Tests.Codec.read_field scia.Config.Lookup.find_credential consume_state
    scia.Auth.Monad.◌>>=◌ scia.Auth.Monad.return scia.Auth.Monad.lift escape unescape marshal
    unmarshal
accepted = refl

consume_state-IsSigned_example : IsSigned outside with_slack "slack" info [] [] state
consume_state-IsSigned_example =
    consume_state-IsSigned outside with_slack "slack" info [] [] state accepted
