-- ===== src/Policy/Laws.antt =====
-- internal/policy/policy.go: which rule decides, and what does not matter for it.
use scia.Base.{
  String, List, [], ◌∷◌, ◌++◌, Bool, true, false, not, ◌&&◌, ◌||◌, ◌≡◌, refl, ap, ◌⊎◌, ◌↔◌, inl,
  inr, All, Any, any, is_empty, Bool-cases, arith, if◌then◌else◌,
}
use scia.Config.Types.{Config, RuleConfig}
use scia.Policy.{
  decide, allow, match_one, match_host_any, match_any, contains_fold, rule_matches, first_match,
  request_path, evaluate,
}
use scia.Go.{to_lower, equal_fold, host_only}
use scia.Go.Http.{Request}
use scia.Go.LowerLaws.{to_lower_idem}

-- A criterion of a rule that lists nothing holds of every request.
abbrev pub IsListed : List String → (String → Type 0) → Type 0
IsListed [] P = Unit
IsListed (x ∷ xs) P = Any P (x ∷ xs)

-- What a rule says of a request: each of its lists is empty or has an entry for the request.
pub record Covers (rule : RuleConfig) (method host path : String) : Type 0 where
  pub methods : IsListed rule.methods (λ m. equal_fold m method ≡ true)
  pub hosts :
      IsListed rule.hosts
        (λ p. (match_one p (to_lower host) || match_one p (host_only (to_lower host))) ≡ true)
  pub paths : IsListed rule.paths (λ p. match_one p (to_lower path) ≡ true)

Any-of_any : (f : String → Bool) (xs : List String) → any f xs ≡ true → Any (λ x. f x ≡ true) xs
Any-of_any f [] h = cc
Any-of_any f (x ∷ xs) h = elim (Bool-cases (f x)) [
  | inl e ↦ inl e
  | inr e ↦ inr (Any-of_any f xs (ground arith))
]

any_of_Any : (f : String → Bool) (xs : List String) → Any (λ x. f x ≡ true) xs → any f xs ≡ true
any_of_Any f [] h = elim h [ ]
any_of_Any f (x ∷ xs) (inl e) = rw e
any_of_Any f (x ∷ xs) (inr h) = ground (arith, any_of_Any f xs h)

listed_sound :
    (f : String → Bool) (xs : List String)
    → (not (is_empty xs) && not (any f xs)) ≡ false
    → IsListed xs (λ x. f x ≡ true)
listed_sound f [] h = tt
listed_sound f (x ∷ xs) h = Any-of_any f (x ∷ xs) (ground arith)

listed_complete :
    (f : String → Bool) (xs : List String)
    → IsListed xs (λ x. f x ≡ true)
    → (not (is_empty xs) && not (any f xs)) ≡ false
listed_complete f [] h = refl
listed_complete f (x ∷ xs) h = ground (arith, any_of_Any f (x ∷ xs) h)

checks_sound :
    (a b c : Bool)
    → (if a then false else if b then false else if c then false else true) ≡ true
    → (a ≡ false) × (b ≡ false) × (c ≡ false)
checks_sound a b c h = (ground arith, ground arith, ground arith)

-- ruleMatches holds exactly where each of the rule's lists of methods, hosts and paths is empty or
-- has an entry for the request.
pub rule_matches_iff :
    (rule : RuleConfig) (method host path : String)
    → (rule_matches rule method host path ≡ true) ↔ Covers rule method host path
unfolding rule_matches match_host_any match_any contains_fold
rule_matches_iff rule method host path = (
  (λ h.
      let (m, o, p) = checks_sound _ _ _ h in
      record {
        methods = listed_sound _ rule.methods m;
        hosts = listed_sound _ rule.hosts o;
        paths = listed_sound _ rule.paths p;
      }),
  (λ c.
      rw
        (
          listed_complete _ rule.methods c.methods,
          listed_complete _ rule.hosts c.hosts,
          listed_complete _ rule.paths c.paths,
        )
        refl),
)

-- The first rule of a list with the property, or none.
pub record IsFirst (P : RuleConfig → Bool) (rules : List RuleConfig) (r : RuleConfig) : Type 0 where
  pub before : List RuleConfig
  pub after : List RuleConfig
  pub split : rules ≡ before ++ r ∷ after
  pub skipped : All (λ q. P q ≡ false) before
  pub chosen : P r ≡ true

IsFirst-head :
    (P : RuleConfig → Bool) (r : RuleConfig) (rules : List RuleConfig)
    → P r ≡ true
    → IsFirst P (r ∷ rules) r
IsFirst-head P r rules h = record {
  before = [];
  after = rules;
  split = refl;
  skipped = tt;
  chosen = h;
}

IsFirst-tail :
    (P : RuleConfig → Bool) (q r : RuleConfig) (rules : List RuleConfig)
    → P q ≡ false
    → IsFirst P rules r
    → IsFirst P (q ∷ rules) r
IsFirst-tail P q r rules h f = record {
  before = q ∷ f.before;
  after = f.after;
  split = ap (λ l. q ∷ l) f.split;
  skipped = (h, f.skipped);
  chosen = f.chosen;
}

first_match-IsFirst :
    (rules : List RuleConfig) (method host path : String)
    → (All (λ q. rule_matches q method host path ≡ false) rules
        × (first_match rules method host path ≡ allow))
      ⊎ ((r : RuleConfig) × IsFirst (λ q. rule_matches q method host path) rules r
          × (first_match rules method host path ≡ decide r))
unfolding first_match
first_match-IsFirst [] method host path = inl (tt, refl)
first_match-IsFirst (q ∷ rules) method host path =
    elim (Bool-cases (rule_matches q method host path)) [
      | inl e ↦ inr (q, IsFirst-head _ q rules e, rw e refl)
      | inr e ↦ elim (first_match-IsFirst rules method host path) [
        | inl (none_match, r) ↦ inl ((e, none_match), rw e r)
        | inr (r, first, d) ↦ inr (r, IsFirst-tail _ q r rules e first, rw e d)
      ]
    ]

-- Evaluate returns the action, the credentials and the services of the first rule that matches the
-- request's method, the target host and the cleaned path, and allows with none of them if no rule
-- matches.
pub evaluate-IsFirst :
    (cfg : Config) (r : Request) (host : String)
    → (All (λ q. rule_matches q r.method host (request_path r.url) ≡ false) cfg.rules
        × (evaluate cfg r host ≡ allow))
      ⊎ ((rule : RuleConfig) × IsFirst
            (λ q. rule_matches q r.method host (request_path r.url))
            cfg.rules
            rule
          × (evaluate cfg r host ≡ decide rule))
unfolding evaluate
evaluate-IsFirst cfg r host = first_match-IsFirst cfg.rules r.method host (request_path r.url)

match_host_any-to_lower :
    (ps : List String) (host : String) → match_host_any ps (to_lower host) ≡ match_host_any ps host
unfolding match_host_any
match_host_any-to_lower ps host = rw (to_lower_idem host) refl

rule_matches-to_lower :
    (rule : RuleConfig) (method host path : String)
    → rule_matches rule method (to_lower host) path ≡ rule_matches rule method host path
unfolding rule_matches
rule_matches-to_lower rule method host path = rw (match_host_any-to_lower rule.hosts host) refl

first_match-to_lower :
    (rules : List RuleConfig) (method host path : String)
    → first_match rules method (to_lower host) path ≡ first_match rules method host path
unfolding first_match
first_match-to_lower [] method host path = refl
first_match-to_lower (q ∷ rules) method host path =
    rw (rule_matches-to_lower q method host path, first_match-to_lower rules method host path) refl

-- The letter case of the target host does not change the decision.
pub evaluate-to_lower :
    (cfg : Config) (r : Request) (host : String)
    → evaluate cfg r (to_lower host) ≡ evaluate cfg r host
unfolding evaluate
evaluate-to_lower cfg r host = first_match-to_lower cfg.rules r.method host (request_path r.url)
