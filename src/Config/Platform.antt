-- ===== src/Config/Platform.antt =====
-- What the configuration takes from outside the repository's code: the environment (os.Getenv,
-- "" for a variable that is not set) and url.Parse, of which scia reads the scheme and the host.
use scia.Base.{String, Option}

pub record ParsedUrl : Type 0 where
  pub scheme : String
  pub host : String
  -- URL.String()
  pub text : String

pub record Platform : Type 0 where
  pub getenv : String → String
  pub parse_url : String → Option ParsedUrl
