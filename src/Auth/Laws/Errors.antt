-- ===== src/Auth/Laws/Errors.antt =====
-- internal/auth/credential.go and internal/config/config.go: why Apply may fail on a rule's credentials.
use scia.Base.{
  String, List, [], ◌∷◌, true, Option, none, some, Result, ok, err, Error, ◌≡◌, refl, ◌∙◌, inl, inr,
  All, Any, All-at, Elem,
}
use scia.Auth.Inject.{apply_one, apply, apply_found}
use scia.Auth.Monad.{◌>>=◌, return}
use scia.Auth.Types.{Injector, Outside}
use scia.Config.Lookup.{credential_by_id}
use scia.Config.Platform.{Platform}
use scia.Config.Types.{Config, CredentialConfig, RuleConfig}
use scia.Config.Validate.References.{validate-credential_by_id}
use scia.Config.Validate.Rules.{validate}
use scia.Go.{is_some}
use scia.Go.Http.{Request}
use scia.Secrets.Store.{after}

-- The error of Apply is the error of one of the credentials, which the configuration has.
pub record FailedOne {S : Type 0} (o : Outside S) (cfg : Config) (ids : List String)
    (j : Injector S) (e : Error) : Type 0 where
  pub id : String
  pub cred : CredentialConfig
  pub request : Request
  pub before : Injector S
  pub among : Elem id ids
  pub found : credential_by_id cfg id ≡ some cred
  pub failed : apply_one o cfg cred request before ≡ (j, err e)

module _ {S : Type 0} (o : Outside S) (cfg : Config) where
  later :
      {ids : List String} {j : Injector S} {e : Error} (id : String)
      → FailedOne o cfg ids j e
      → FailedOne o cfg (id ∷ ids) j e
  later id f = record {
    id = f.id;
    cred = f.cred;
    request = f.request;
    before = f.before;
    among = inr f.among;
    found = f.found;
    failed = f.failed;
  }

  ok-ne : {q : Request} {e : Error} → ¬ (ok q ≡ err e)
  ok-ne h = cc

  -- The first credential has failed, or a later one.
  first_or_later :
      (id : String) (ids : List String) (r : Request) (i j : Injector S) (e : Error)
      (cred : CredentialConfig) (x : Injector S × Result Request)
      → ((q : Request) (k : Injector S)
          → apply o cfg ids q k ≡ (j, err e)
          → FailedOne o cfg ids j e)
      → credential_by_id cfg id ≡ some cred
      → apply_one o cfg cred r i ≡ x
      → after (apply o cfg ids) x ≡ (j, err e)
      → FailedOne o cfg (id ∷ ids) j e
  first_or_later id ids r i j e cred (k, ok q) next c a f = later id (next q k f)
  first_or_later id ids r i j e cred (k, err e') next c a f = record {
    id = id;
    cred = cred;
    request = r;
    before = i;
    among = inl refl;
    found = c;
    failed = a ∙ f;
  }

  of_found :
      (id : String) (ids : List String) (r : Request) (i j : Injector S) (e : Error)
      (c : Option CredentialConfig)
      → ((q : Request) (k : Injector S)
          → apply o cfg ids q k ≡ (j, err e)
          → FailedOne o cfg ids j e)
      → credential_by_id cfg id ≡ c
      → is_some c ≡ true
      → after (apply o cfg ids) (apply_found o cfg id c r i) ≡ (j, err e)
      → FailedOne o cfg (id ∷ ids) j e
  of_found id ids r i j e none next c t f = cc
  of_found id ids r i j e (some cred) next c t f =
      first_or_later id ids r i j e cred (apply_one o cfg cred r i) next c refl f

  apply-FailedOne :
      (ids : List String) (r : Request) (i j : Injector S) (e : Error)
      → All (λ id. is_some (credential_by_id cfg id) ≡ true) ids
      → apply o cfg ids r i ≡ (j, err e)
      → FailedOne o cfg ids j e
  unfolding apply ◌>>=◌ return
  apply-FailedOne [] r i j e h f = absurd (ok-ne (λ k. (f k).1))
  apply-FailedOne (id ∷ ids) r i j e (h, hs) f =
      of_found id ids r i j e (credential_by_id cfg id)
        (λ q k f'. apply-FailedOne ids q k j e hs f') refl h f

-- With a configuration that Validate has accepted, Apply never fails on a rule's credentials because
-- there is no such credential: its error is the one of applying a credential that the configuration
-- has under one of the rule's ids.
pub apply-validate :
    {S : Type 0} (o : Outside S) (p : Platform) (given cfg : Config) (rule : RuleConfig)
    (r : Request) (i j : Injector S) (e : Error)
    → validate p given ≡ ok cfg
    → Any (λ q. q ≡ rule) cfg.rules
    → apply o cfg rule.credentials r i ≡ (j, err e)
    → FailedOne o cfg rule.credentials j e
apply-validate o p given cfg rule r i j e v m f =
    apply-FailedOne o cfg rule.credentials r i j e
      (All-at
        (λ (q : RuleConfig). All (λ id. is_some (credential_by_id cfg id) ≡ true) q.credentials)
        cfg.rules rule (validate-credential_by_id p given cfg v) m)
      f
