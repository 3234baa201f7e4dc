-- ===== src/Oauth/Laws/Scopes.antt =====
-- internal/oauth/server.go: the scopes of a login are among those that the operator has listed.
use scia.Base.{
  ℕ, suc, String, List, [], ◌∷◌, Bool, true, false, ◌&&◌, ◌==◌, is_empty, Option, none, some,
  Result, ok, ◌≡◌, refl, sym, ◌∙◌, subst, lookup, insert, lookup-insert, All, All-append, Elem,
  if-cases, ok-injective, err-ne-ok, >>=-eq-ok, ◌>>=◌, inl, inr,
}
use scia.Config.Types.{Config, OauthIntegrationScopeConfig}
use scia.Go.{join}
use scia.Oauth.Scopes.{
  AllowedScope, Selection, empty_selection, pick, pick_requested, selected_of, integration_scope_id,
  allow_one, allow_scopes, requested_scopes, listed_scope, select_oauth_scope_group,
  scope_default_enabled, split_scope_values, oauth_integration_metadata, oauth_scope_separator,
  oauth_scope_from_request,
}

-- The values of the listed scopes.
abbrev pub scope_values : List OauthIntegrationScopeConfig → List String
scope_values [] = []
scope_values (s ∷ ss) = s.value ∷ scope_values ss

abbrev Listed : List String → String → Type 0
Listed vs v = Elem v vs

-- What the loops keep holds listed values only.
abbrev IsWithin : List String → Selection → Type 0
IsWithin vs l =
    ((key : String) (a : AllowedScope) → lookup key l.allowed ≡ some a → Listed vs a.value)
    × All (Listed vs) l.selected

AllowedWithin-insert :
    (vs : List String) (m : List (String × AllowedScope)) (key : String) (a : AllowedScope)
    → Listed vs a.value
    → ((at : String) (b : AllowedScope) → lookup at m ≡ some b → Listed vs b.value)
    → (at : String) (b : AllowedScope) → lookup at (insert key a m) ≡ some b
    → Listed vs b.value
AllowedWithin-insert vs m key a u h at b e =
    if-cases (λ x. x ≡ some b → Listed vs b.value) (key == at) (some a) (lookup at m)
      (λ _ e'. subst (λ (c : AllowedScope). Listed vs c.value) (some-injective e') u)
      (λ _ e'. h at b e') (sym (lookup-insert key at a m) ∙ e)
  where
    some-injective : {c d : AllowedScope} → some c ≡ some d → c ≡ d
    some-injective e = cc

pick_requested-Listed :
    (vs : List String) (id : String) (allowed : List (String × AllowedScope))
    (groups : List (String × String)) (scopes selected : List String)
    → ((key : String) (a : AllowedScope) → lookup key allowed ≡ some a → Listed vs a.value)
    → pick_requested id allowed groups scopes ≡ ok selected
    → All (Listed vs) selected
unfolding pick_requested
pick_requested-Listed vs id allowed groups [] selected h f =
    subst (All (Listed vs)) (ok-injective f) tt
pick_requested-Listed vs id allowed groups (scope ∷ scopes) selected h f =
    go (lookup scope allowed) refl f
      (λ groups' rest. pick_requested-Listed vs id allowed groups' scopes rest h)
  where
    go :
        (x : Option AllowedScope)
        → lookup scope allowed ≡ x
        → pick id x scope groups (λ value groups'.
          pick_requested id allowed groups' scopes >>= λ rest. ok (value ∷ rest))
          ≡ ok selected
        → ((groups' : List (String × String)) (rest : List String)
            → pick_requested id allowed groups' scopes ≡ ok rest
            → All (Listed vs) rest)
        → All (Listed vs) selected
    go none e f ih = absurd (err-ne-ok _ f)
    go (some a) e f ih =
        let (groups', _, f₁) = >>=-eq-ok (select_oauth_scope_group groups a.value a.group) _ f in
        let (rest, later, f₂) = >>=-eq-ok (pick_requested id allowed groups' scopes) _ f₁ in
        subst (All (Listed vs)) (ok-injective f₂) (h scope a e, ih groups' rest later)

module _ (itoa : ℕ → String) (vs : List String) where
  allow_one-IsWithin :
      (by_default : Bool) (configured : String) (scope : OauthIntegrationScopeConfig) (i : ℕ)
      (l m : Selection)
      → Listed vs scope.value
      → IsWithin vs l
      → allow_one itoa by_default configured scope i l ≡ ok m
      → IsWithin vs m
  allow_one-IsWithin by_default configured scope i l m u (h, k) f =
      if-cases (λ (x : Result Selection). x ≡ ok m → IsWithin vs m) (scope.value == "") _ _
        (λ _ g. subst (IsWithin vs) (ok-injective g) (h, k))
        (λ _.
          if-cases (λ (x : Result Selection). x ≡ ok m → IsWithin vs m)
            (by_default && scope_default_enabled scope configured) _ _
            (λ _ g.
              let (groups, _, g₁) =
                >>=-eq-ok (select_oauth_scope_group l.groups scope.value scope.group) _ g in
              subst (IsWithin vs) (ok-injective g₁)
                (allowed, All-append (Listed vs) l.selected (scope.value ∷ []) k (u, tt)))
            (λ _ g. subst (IsWithin vs) (ok-injective g) (allowed, k)))
        f
    where
      a : AllowedScope
      a = record { value = scope.value; group = scope.group }

      allowed :
          (key : String) (b : AllowedScope)
          → lookup key
              (insert scope.value a (insert (integration_scope_id itoa scope i) a l.allowed))
            ≡ some b
          → Listed vs b.value
      allowed =
          AllowedWithin-insert vs _ scope.value a u
            (AllowedWithin-insert vs l.allowed (integration_scope_id itoa scope i) a u h)

  allow_scopes-IsWithin :
      (by_default : Bool) (configured : String) (i : ℕ) (scopes : List OauthIntegrationScopeConfig)
      (l m : Selection)
      → All (λ s. Listed vs s.value) scopes
      → IsWithin vs l
      → allow_scopes itoa by_default configured i scopes l ≡ ok m
      → IsWithin vs m
  unfolding allow_scopes
  allow_scopes-IsWithin by_default configured i [] l m u w f =
      subst (IsWithin vs) (ok-injective f) w
  allow_scopes-IsWithin by_default configured i (s ∷ ss) l m (u, us) w f =
      let (l', here, later) = >>=-eq-ok (allow_one itoa by_default configured s i l) _ f in
      allow_scopes-IsWithin by_default configured (suc i) ss l' m us
        (allow_one-IsWithin by_default configured s i l l' u w here) later

scope_values-Listed :
    (vs : List String) (ss : List OauthIntegrationScopeConfig)
    → ((v : String) → Elem v (scope_values ss) → Listed vs v)
    → All (λ s. Listed vs s.value) ss
scope_values-Listed vs [] h = tt
scope_values-Listed vs (s ∷ ss) h =
    (h s.value (inl refl), scope_values-Listed vs ss (λ v m. h v (inr m)))

requested_scopes-Listed :
    (itoa : ℕ → String) (vs : List String) (id requested : String) (l : Selection)
    (selected : List String)
    → IsWithin vs l
    → requested_scopes itoa id requested l ≡ ok selected
    → All (Listed vs) selected
requested_scopes-Listed itoa vs id requested l selected (h, k) f =
    if-cases (λ (x : Result (List String)). x ≡ ok selected → All (Listed vs) selected)
      (requested == "") _ _ (λ _ g. subst (All (Listed vs)) (ok-injective g) k)
      (λ _.
        if-cases (λ (x : Result (List String)). x ≡ ok selected → All (Listed vs) selected)
          (is_empty (split_scope_values requested)) _ _ (λ _ g. absurd (err-ne-ok _ g))
          (λ _ g.
            pick_requested-Listed vs id l.allowed l.groups (split_scope_values requested) selected h
              g))
      f

selected_of-join :
    (id provider scope : String) (selected : List String)
    → selected_of id selected provider ≡ ok scope
    → (scope ≡ join (oauth_scope_separator provider) selected) × (is_empty selected ≡ false)
selected_of-join id provider scope [] f = absurd (err-ne-ok _ f)
selected_of-join id provider scope (v ∷ vs) f = (sym (ok-injective f), refl)

-- Where the operator lists scopes for an integration: a scope that oauthScopeFromRequest returns is
-- a list of values, joined by the provider's separator, that is not empty and has only values of the
-- listed scopes, whatever the request and the configured scope are.
pub oauth_scope_from_request-Listed :
    (itoa : ℕ → String) (cfg : Config) (id provider requested configured fallback scope : String)
    → is_empty (oauth_integration_metadata cfg id provider).scopes ≡ false
    → oauth_scope_from_request itoa cfg id provider requested configured fallback ≡ ok scope
    → (selected : List String) × (scope ≡ join (oauth_scope_separator provider) selected)
      × (is_empty selected ≡ false)
      × All
          (λ v. Elem v (scope_values (oauth_integration_metadata cfg id provider).scopes))
          selected
unfolding oauth_scope_from_request
oauth_scope_from_request-Listed itoa cfg id provider requested configured fallback scope e f =
    let scopes = (oauth_integration_metadata cfg id provider).scopes in
    let vs = scope_values scopes in
    let listed = listed_scope itoa scopes id provider requested configured in
    let rest : listed ≡ ok scope =
      if-cases (λ (x : Result String). x ≡ ok scope → listed ≡ ok scope) (is_empty scopes) _ _
        (λ t _. absurd (true-ne (sym t ∙ e))) (λ _ g. g) f in
    let (l, allowed, f₁) =
      >>=-eq-ok (allow_scopes itoa (requested == "") configured 0 scopes empty_selection) _ rest in
    let (selected, picked, f₂) = >>=-eq-ok (requested_scopes itoa id requested l) _ f₁ in
    let (joined, some_scope) = selected_of-join id provider scope selected f₂ in
    (
      selected,
      joined,
      some_scope,
      requested_scopes-Listed itoa vs id requested l selected
          (allow_scopes-IsWithin itoa vs (requested == "") configured 0 scopes empty_selection l
            (scope_values-Listed vs scopes (λ v m. m)) ((λ key a h. absurd (none-ne h)), tt)
            allowed)
          picked,
    )
  where
    true-ne : ¬ (true ≡ false)
    true-ne h = cc

    none-ne : {a : AllowedScope} → ¬ (none ≡ some a)
    none-ne h = cc
