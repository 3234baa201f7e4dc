-- ===== src/Auth/Laws/Place.antt =====
-- internal/auth/credential.go: ApplyServices does not change where a request goes.
use scia.Base.{
  String, List, [], ◌∷◌, not, ◌&&◌, ◌==◌, is_empty, Option, none, some, Result, ok, err, ◌≡◌, refl,
  ◌∙◌, if◌then◌else◌, ap, sym, arith,
}
use scia.Auth.Generic.{generic_oauth_fields}
use scia.Auth.Inject.{set_header, apply_auth_method, render_injection}
use scia.Auth.Laws.{
  Post, Keeps, Anything, Keeps-Anything, Keeps-bind, Keeps-return, Keeps-lift, Keeps-if,
}
use scia.Auth.Monad.{Op, lift, return, ◌>>=◌}
use scia.Auth.Services.{
  in_service, inject_headers, inject_query?, with_query, apply_service_injection,
  parameter_service_token, apply_token, apply_rule,
}
use scia.Auth.Types.{Fields, Injector, Outside}
use scia.Config.Lookup.{param}
use scia.Config.Inputs.{parameter_service}
use scia.Config.Types.{
  Config, ServiceConfig, ServiceHostRule, ServiceOauthConfig, InjectionTemplate,
}
use scia.Go.Http.{Request, Url}

-- The host and the path of a request's URL.
abbrev pub place_of : Option Url → Option (String × String)
place_of none = none
place_of (some u) = some (u.host, u.path)

-- A request to the same host and path.
abbrev pub SamePlace : Request → Request → Type 0
SamePlace r r' = place_of r'.url ≡ place_of r.url

Keeps-in_service :
    {S A : Type 0} (Q : A → Type 0) (id : String) (m : Op S A)
    → Keeps {S = S} Anything Q m
    → Keeps {S = S} Anything Q (in_service id m)
unfolding Keeps
Keeps-in_service {S} {A} Q id m h s p = of (m s) (h s p)
  where
    of :
        (x : S × Result A)
        → Post {S = S} Anything Q x
        → Post {S = S} Anything Q (in_service id (λ _. x) s)
    of (t, ok a) q = q
    of (t, err e) q = tt

with_query-SamePlace :
    {S : Type 0} (o : Outside S) (r : Request) (u : Option Url) (q : String)
    → r.url ≡ u
    → SamePlace r (with_query o r u q)
with_query-SamePlace o r none q e = refl
with_query-SamePlace o r (some u) q e = ap place_of (sym e)

module _ {S : Type 0} (o : Outside S) (cfg : Config) (id : String) where
  apply_auth_method-SamePlace :
      (r a : Request) (method token : String)
      → apply_auth_method o r method token ≡ ok a
      → SamePlace r a
  unfolding apply_auth_method
  apply_auth_method-SamePlace r a method token h = ground arith

  inject_headers-SamePlace :
      (fields : Fields) (ts : List InjectionTemplate) (r s : Request)
      → SamePlace r s
      → Keeps {S = Injector S} Anything (SamePlace r) (inject_headers o cfg id fields ts s)
  unfolding inject_headers
  inject_headers-SamePlace fields [] r s e =
      Keeps-return {S = Injector S} Anything (SamePlace r) s e
  inject_headers-SamePlace fields (t ∷ ts) r s e =
      Keeps-bind {S = Injector S} Anything Anything (SamePlace r)
        (render_injection o cfg id t.value fields) _ (Keeps-Anything _)
        (λ value _. inject_headers-SamePlace fields ts r (set_header t.name value s) e)

  inject_query?-SamePlace :
      (fields : Fields) (ts : List InjectionTemplate) (r s : Request)
      → SamePlace r s
      → Keeps {S = Injector S} Anything (SamePlace r) (inject_query? o cfg id fields ts s)
  inject_query?-SamePlace fields ts r s e =
      Keeps-if {S = Injector S} Anything (SamePlace r) (is_empty ts) _ _
        (λ _. Keeps-return {S = Injector S} Anything (SamePlace r) s e)
        (λ _.
          Keeps-bind {S = Injector S} Anything Anything (SamePlace r) _ _ (Keeps-Anything _) (λ q _.
            Keeps-return {S = Injector S} Anything (SamePlace r) _
              (with_query-SamePlace o s s.url (o.encode_query q) refl ∙ e)))

module _ {S : Type 0} (o : Outside S) (cfg : Config) (id : String) where
  injection-SamePlace :
      (service : ServiceConfig) (fields : Fields) (r s : Request)
      → SamePlace r s
      → Keeps {S = Injector S} Anything
          (SamePlace r)
          (apply_service_injection o cfg id service fields s)
  unfolding apply_service_injection
  injection-SamePlace service fields r s e =
      Keeps-bind {S = Injector S} Anything (SamePlace r) (SamePlace r) _ _
        (inject_headers-SamePlace o cfg _ fields service.injection.headers r s e)
        (λ t f. inject_query?-SamePlace o cfg _ fields service.injection.query r t f)

  auth-SamePlace :
      (method token : String) (r : Request)
      → Keeps {S = Injector S} Anything (SamePlace r) (lift (apply_auth_method o r method token))
  auth-SamePlace method token r =
      Keeps-lift {S = Injector S} Anything (SamePlace r) _
        (λ a e. apply_auth_method-SamePlace o cfg id r a method token e)

  -- The request of the pair goes to the same place.
  abbrev FirstSame : Request → Request × Fields → Type 0
  FirstSame r (s, fields) = SamePlace r s

  paired :
      (r : Request) (f : Fields) (m : Op (Injector S) Request)
      → Keeps {S = Injector S} Anything (SamePlace r) m
      → Keeps {S = Injector S} Anything (FirstSame r) (m >>= λ s. return (s, f))
  paired r f m h =
      Keeps-bind {S = Injector S} Anything (SamePlace r) (FirstSame r) m _ h
        (λ s e. Keeps-return {S = Injector S} Anything (FirstSame r) (s, f) e)

  apply_token-SamePlace :
      (service : ServiceConfig) (rule : ServiceHostRule) (r : Request)
      → Keeps {S = Injector S} Anything (FirstSame r) (apply_token o cfg id service rule r)
  apply_token-SamePlace service rule r = go service.oauth
    where
      with_fields : Fields → Op (Injector S) Request
      with_fields fields =
          in_service id
            (lift (apply_auth_method o r rule.auth_method (param "access_token" fields)))

      with_parameter : Op (Injector S) Request
      with_parameter = in_service id (
          parameter_service_token o cfg id >>= λ token.
          lift (apply_auth_method o r rule.auth_method token))

      go :
          (x : Option ServiceOauthConfig)
          → Keeps {S = Injector S} Anything (FirstSame r) (elim x [
            | some oauth ↦ generic_oauth_fields o cfg service >>= λ fields.
                with_fields fields >>= λ s. return (s, fields)
            | none ↦
                if parameter_service service && not (rule.auth_method == "none")
                then (with_parameter >>= λ s. return (s, []))
                else return (r, [])
          ])
      go (some oauth) =
          Keeps-bind {S = Injector S} Anything Anything (FirstSame r) _ _ (Keeps-Anything _)
            (λ fields _.
              paired r fields (with_fields fields)
                (Keeps-in_service (SamePlace r) id _ (auth-SamePlace rule.auth_method _ r)))
      go none =
          Keeps-if {S = Injector S} Anything (FirstSame r) _ _ _
            (λ _. paired r [] with_parameter (
              Keeps-in_service (SamePlace r) id _ (
                Keeps-bind {S = Injector S} Anything Anything (SamePlace r) _ _ (Keeps-Anything _)
                  (λ token _. auth-SamePlace rule.auth_method token r))))
            (λ _. Keeps-return {S = Injector S} Anything (FirstSame r) (r, []) refl)

  -- A round for a service with a host rule leaves the request's host and path.
  pub apply_rule-SamePlace :
      (service : ServiceConfig) (rule : ServiceHostRule) (r : Request)
      → Keeps {S = Injector S} Anything (SamePlace r) (apply_rule o cfg id service r (some rule))
  apply_rule-SamePlace service rule r =
      Keeps-bind {S = Injector S} Anything (FirstSame r) (SamePlace r) _ _
        (apply_token-SamePlace service rule r)
        (λ x e. Keeps-in_service (SamePlace r) id _ (injection-SamePlace service x.1 r x.0 e))
