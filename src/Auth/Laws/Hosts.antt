-- ===== src/Auth/Laws/Hosts.antt =====
-- internal/auth/credential.go: where ApplyServices may inject a service's secrets.
use scia.Base.{
  String, List, [], ◌∷◌, Any, Option, none, some, Result, ok, err, ◌≡◌, refl, sym, subst, ◌∙◌, ap,
  err-ne-ok, ok-injective,
}
use scia.Auth.Laws.{Post, Keeps, Anything}
use scia.Auth.Laws.Place.{place_of, SamePlace, apply_rule-SamePlace}
use scia.Auth.Monad.{◌>>=◌, lift, return}
use scia.Auth.Secrets.{rebuild}
use scia.Auth.Services.{
  apply_service, apply_services, apply_service_found, apply_rule, rule_of, service_of_id,
  in_service,
}
use scia.Auth.Types.{Injector, Outside}
use scia.Config.Types.{Config, ServiceConfig, ServiceHostRule}
use scia.Go.{host_only, to_lower}
use scia.Go.Http.{Request, Url}
use scia.Secrets.Store.{after}
use scia.Serviceinfo.Laws.{Fits, host_rule-Fits}

-- The service of an id was looked up in a state, and one of its host rules fits the host and the path.
pub record Matched {S : Type 0} (o : Outside S) (cfg : Config) (id : String)
    (place : Option (String × String)) (s : S) : Type 0 where
  pub next : S
  pub service : ServiceConfig
  pub looked_up : service_of_id o cfg id s ≡ (next, ok (some service))
  pub host : String
  pub path : String
  pub is_place : place ≡ some (host, path)
  pub rule : ServiceHostRule
  pub listed : Any (λ q. q ≡ rule) service.hosts
  pub fits : Fits rule (host_only (to_lower host)) path

module _ {S : Type 0} (o : Outside S) (cfg : Config) (id : String) (r r' : Request)
    (i j : Injector S) where
  -- What a round that succeeds has found, and where its request goes.
  abbrev Round : Type 0
  Round = Matched o cfg id (place_of r.url) i.world × SamePlace r r'

  same_place :
      (x : Injector S × Result Request)
      → Post {S = Injector S} Anything (SamePlace r) x
      → x ≡ (j, ok r')
      → SamePlace r r'
  same_place (k, ok a) (_, e) f = subst (SamePlace r) (ok-injective (λ h. (f h).1)) e
  same_place (k, err e) _ f = absurd (err-ne-ok e (λ h. (f h).1))

  of_rule :
      (service : ServiceConfig) (k : Injector S) (t : S)
      → service_of_id o cfg id i.world ≡ (t, ok (some service))
      → (u : Option Url) → r.url ≡ u
      → (m : Option ServiceHostRule) → rule_of o service u ≡ m
      → apply_rule o cfg id service r m k ≡ (j, ok r')
      → Round
  unfolding lift Keeps
  of_rule service k t e u p none q f = absurd (err-ne-ok _ (λ h. (f h).1))
  of_rule service k t e none p (some rule) q f = absurd (none-ne q)
    where
      none-ne : {rule : ServiceHostRule} → ¬ (none ≡ some rule)
      none-ne h = cc
  of_rule service k t e (some url) p (some rule) q f =
      let (listed, fits) = host_rule-Fits service url.host url.path rule q in
      (
        record {
          next = t;
          service = service;
          looked_up = e;
          host = url.host;
          path = url.path;
          is_place = ap place_of p;
          rule = rule;
          listed = listed;
          fits = fits;
        },
        same_place (apply_rule o cfg id service r (some rule) k)
            (apply_rule-SamePlace o cfg id service rule r k tt) f,
      )

  of_lookup :
      (x : S × Result (Option ServiceConfig))
      → service_of_id o cfg id i.world ≡ x
      → after (apply_service_found o cfg id r) (in_service id (λ k. rebuild o k x) i) ≡ (j, ok r')
      → Round
  unfolding lift
  of_lookup (t, err e) p f = absurd (err-ne-ok _ (λ h. (f h).1))
  of_lookup (t, ok none) p f = absurd (err-ne-ok _ (λ h. (f h).1))
  of_lookup (t, ok (some service)) p f = of_rule service _ t p r.url refl _ refl f

  apply_service-Matched : apply_service o cfg id r i ≡ (j, ok r') → Round
  unfolding apply_service ◌>>=◌
  apply_service-Matched f = of_lookup (service_of_id o cfg id i.world) refl f

-- The rounds of ApplyServices, from a request and a state: each begins with a service that has a host
-- rule for the place, and goes on with what it leaves.
abbrev pub Rounds :
    {S : Type 0}
    → Outside S
    → Config
    → Option (String × String)
    → List String
    → Request
    → Injector S
    → Type 0
Rounds o cfg place [] r i = Unit
Rounds {S} o cfg place (id ∷ ids) r i =
    Matched o cfg id place i.world
    × ((s : Request) × (k : Injector S) × (apply_service o cfg id r i ≡ (k, ok s))
        × Rounds o cfg place ids s k)

module _ {S : Type 0} (o : Outside S) (cfg : Config) (r' : Request) (j : Injector S) where
  of_round :
      (ids : List String) (r : Request) (x : Injector S × Result Request) (A : Type 0)
      → ((s : Request) (k : Injector S)
          → x ≡ (k, ok s)
          → apply_services o cfg ids s k ≡ (j, ok r')
          → A)
      → after (apply_services o cfg ids) x ≡ (j, ok r')
      → A
  of_round ids r (k, ok s) A h f = h s k refl f
  of_round ids r (k, err e) A h f = absurd (err-ne-ok e (λ h. (f h).1))

  -- If ApplyServices succeeds on a request, then in each of its rounds the service was found, in the
  -- configuration, in the store or at the metadata endpoint, as they were when the round began, and has
  -- a host rule that fits the host and the path of that request: the rule's host, where it is set, is
  -- the request's up to case and port, its suffix ends it and is shorter, and its prefix begins the
  -- path. What comes out goes to the same host and path.
  pub apply_services-Matched :
      (ids : List String) (r : Request) (i : Injector S)
      → apply_services o cfg ids r i ≡ (j, ok r')
      → Rounds o cfg (place_of r.url) ids r i × SamePlace r r'
  unfolding apply_services return ◌>>=◌
  apply_services-Matched [] r i f =
      (tt, ap (λ s. place_of s.url) (sym (ok-injective (λ h. (f h).1))))
  apply_services-Matched (id ∷ ids) r i f =
      of_round ids r (apply_service o cfg id r i) _
        (λ s k e g.
          let (matched, same) = apply_service-Matched o cfg id r s i k e in
          let (rest, last) = apply_services-Matched ids s k g in
          ((matched, (s, k, e, subst (λ p. Rounds o cfg p ids s k) same rest)), last ∙ same))
        f
