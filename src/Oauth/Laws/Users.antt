-- ===== src/Oauth/Laws/Users.antt =====
-- internal/oauth/server.go: the token that a dynamic user is bound to.
use scia.Base.{
  not-false, ℕ, String, Bool, true, false, not, ◌==◌, Option, none, some, Result, ok, err, ◌≡◌, ◌≢◌,
  refl, sym, ap, ◌∙◌, subst, if◌then◌else◌, if-cases, eq_iff,
}
use scia.Config.Lookup.{has_dynamic_user}
use scia.Config.Types.{Config}
use scia.Oauth.Types.{Outside}
use scia.Oauth.Users.{
  dynamic_user_token_secret_key, UserRequest, Verdict, granted, refused,
  dynamic_user_token_from_request, put_token, match_token, authorize_dynamic_user_request,
}

-- The store returns what was put into it, and a read does not change what the next one returns.
pub record IsStore {S : Type 0} (o : Outside S) : Type 0 where
  pub remembers :
      (user key value : String) (s t : S)
      → o.store.put user key value s ≡ (t, ok tt)
      → o.store.get user key t ≡ (t, ok (some value))
  pub rereads :
      (user key : String) (s t : S) (v : Option String)
      → o.store.get user key s ≡ (t, ok v)
      → o.store.get user key t ≡ (t, ok v)

-- The answer to a request of a user who is bound to a token.
abbrev pub bound : String → UserRequest → Verdict
bound token r =
    if dynamic_user_token_from_request r == ""
    then refused 401 "dynamic user token is required"
    else if dynamic_user_token_from_request r == token
    then granted
    else refused 401 "invalid dynamic user token"

refused-ne : (n : ℕ) (text : String) → refused n text ≢ granted
refused-ne n text h = cc

module _ {S : Type 0} (o : Outside S) (laws : IsStore o) (cfg : Config) (user : String) where
  -- The user's token is stored.
  abbrev IsBound : String → S → Type 0
  IsBound token s = o.store.get user dynamic_user_token_secret_key s ≡ (s, ok (some token))

  of_put :
      (token : String) (a t : S) (x : S × Result (Unit {0}))
      → o.store.put user dynamic_user_token_secret_key token a ≡ x
      → put_token o x ≡ (t, granted)
      → IsBound token t
  of_put token a t (b, ok done) p f =
      laws.remembers user dynamic_user_token_secret_key token a t (p ∙ (λ i. ((f i).0, ok tt)))
  of_put token a t (b, err e) p f = absurd (refused-ne 500 _ (λ i. (f i).1))

  of_get :
      (token : String) (s t : S) (x : S × Result (Option String))
      → o.store.get user dynamic_user_token_secret_key s ≡ x
      → match_token o user token x ≡ (t, granted)
      → IsBound token t
  of_get token s t (a, err e) p f = absurd (refused-ne 500 _ (λ i. (f i).1))
  of_get token s t (a, ok none) p f = of_put token a t _ refl f
  of_get token s t (a, ok (some stored)) p f =
      if-cases (λ (x : S × Verdict). x ≡ (t, granted) → IsBound token t) (not (token == stored))
        (a, refused 401 "invalid dynamic user token") (a, granted)
        (λ _ g. absurd (refused-ne 401 _ (λ i. (g i).1)))
        (λ e g.
          subst IsBoundTo (λ i. (g i).0)
            (laws.rereads user dynamic_user_token_secret_key s a (some token)
              (p ∙ ap (λ v. (a, ok (some v))) (sym ((eq_iff token stored).0 (not-false _ e))))))
        f
    where
      IsBoundTo : S → Type 0
      IsBoundTo u = o.store.get user dynamic_user_token_secret_key u ≡ (u, ok (some token))

  -- The two tests on the token of the request.
  tests :
      (t : S) (no_token same : Bool)
      → ◌≡◌ {A = S × Verdict}
          (if no_token
            then (t, refused 401 "dynamic user token is required")
            else if not same
            then (t, refused 401 "invalid dynamic user token")
            else (t, granted))
          (
            t,
            if no_token
                then refused 401 "dynamic user token is required"
                else if same
                then granted
                else refused 401 "invalid dynamic user token",
          )
  tests t true same = refl
  tests t false true = refl
  tests t false false = refl

  bound_at :
      (token : String) (r : UserRequest) (t : S)
      → has_dynamic_user cfg user ≡ true
      → IsBound token t
      → authorize_dynamic_user_request o r cfg user t ≡ (t, bound token r)
  unfolding authorize_dynamic_user_request
  bound_at token r t d b =
      let mine = dynamic_user_token_from_request r in
      let no_token : S × Verdict = (t, refused 401 "dynamic user token is required") in
      ap
        (λ h.
          if not h
          then (t, granted)
          else if mine == ""
          then no_token
          else match_token o user mine (o.store.get user dynamic_user_token_secret_key t))
        d
      ∙ ap (λ x. if mine == "" then no_token else match_token o user mine x) b
      ∙ tests t (mine == "") (mine == token)

  IsBound-of_granted :
      (r : UserRequest) (s t : S)
      → has_dynamic_user cfg user ≡ true
      → authorize_dynamic_user_request o r cfg user s ≡ (t, granted)
      → IsBound (dynamic_user_token_from_request r) t
  unfolding authorize_dynamic_user_request
  IsBound-of_granted r s t d f =
      let mine = dynamic_user_token_from_request r in
      let found = o.store.get user dynamic_user_token_secret_key s in
      if-cases (λ (x : S × Verdict). x ≡ (t, granted) → IsBound mine t) (mine == "")
        (s, refused 401 "dynamic user token is required") (match_token o user mine found)
        (λ _ g. absurd (refused-ne 401 _ (λ i. (g i).1))) (λ _ g. of_get mine s t found refl g)
        (sym (
            ap
              (λ h.
                if not h
                then (s, granted)
                else if mine == ""
                then (s, refused 401 "dynamic user token is required")
                else match_token o user mine found)
              d)
          ∙ f)

  -- A user without an entry in the configuration is bound to the token of the first request that is
  -- granted: with a store that returns what was put into it, every later request is granted if it
  -- brings that token, and else is answered by 401, and nothing changes.
  pub authorize_dynamic_user_request-bound :
      (r later : UserRequest) (s t : S)
      → has_dynamic_user cfg user ≡ true
      → authorize_dynamic_user_request o r cfg user s ≡ (t, granted)
      → authorize_dynamic_user_request o later cfg user t
        ≡ (t, bound (dynamic_user_token_from_request r) later)
  authorize_dynamic_user_request-bound r later s t d f =
      bound_at (dynamic_user_token_from_request r) later t d (IsBound-of_granted r s t d f)
