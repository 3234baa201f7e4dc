-- ===== src/Oauth/Laws/Signed.antt =====
-- internal/oauth/server.go: the states that consumeState accepts are signed with the provider's client
-- secret.
use scia.Base.{
  String, true, ◌==◌, Option, none, some, Result, ok, err, Error, ◌≡◌, ◌≢◌, refl, ◌∙◌, if-cases,
  eq_iff,
}
use scia.Auth.Monad.{return, ◌>>=◌}
use scia.Config.Types.{Config}
use scia.Oauth.State.{
  two_parts, is_for, info_of, consume_state, consume_parts, read_payload, check_payload, if_signed,
  state_signing_key, sign_state,
}
use scia.Oauth.Types.{StateInfo, SignedStatePayload, Outside}
use scia.Secrets.Store.{after}

module _ {S : Type 0} (o : Outside S) (cfg : Config) (provider : String) (info : StateInfo)
    (s t : S) where
  abbrev Accepts : S × Result (Option StateInfo) → Type 0
  Accepts x = x ≡ (t, ok (some info))

  -- A text and its signature are those of a login for the provider, under the key that the provider's
  -- client gives for the login's credential.
  abbrev IsSignature : String → String → Type 0
  IsSignature raw sig =
      (p : SignedStatePayload) × (key : String) × (o.unmarshal raw ≡ some p)
      × (is_for provider p ≡ true)
      × (state_signing_key o cfg provider p.credential_id s ≡ (t, ok key))
      × (sig ≡ sign_state o raw key)
      × (info_of p ≡ info)

  -- The state is such a text and its signature, both encoded.
  abbrev pub IsSigned : String → Type 0
  IsSigned state =
      (a : String) × (b : String) × (raw : String) × (sig : String) × (two_parts state
        ≡ some (a, b))
      × (o.decode a ≡ some raw)
      × (o.decode b ≡ some sig)
      × IsSignature raw sig

  none-ne : (u : S) → ¬ (Accepts (u, ok none))
  none-ne u h = none-some (λ i. (h i).1)
    where
      none-some : ◌≢◌ {A = Result (Option StateInfo)} (ok none) (ok (some info))
      none-some h = cc

  error-ne : (u : S) (e : Error) → ¬ (Accepts (u, err e))
  error-ne u e h = error-some (λ i. (h i).1)
    where
      error-some : ◌≢◌ {A = Result (Option StateInfo)} (err e) (ok (some info))
      error-some h = cc

  some-eq :
      (x : StateInfo)
      → ◌≡◌ {A = Result (Option StateInfo)} (ok (some x)) (ok (some info))
      → x ≡ info
  some-eq x h = cc

  of_key :
      (raw sig : String) (p : SignedStatePayload) (y : S × Result String)
      → o.unmarshal raw ≡ some p
      → is_for provider p ≡ true
      → state_signing_key o cfg provider p.credential_id s ≡ y
      → Accepts (after (if_signed o raw sig p) y)
      → IsSignature raw sig
  unfolding return
  of_key raw sig p (u, err e) m f k h = absurd (error-ne u e h)
  of_key raw sig p (u, ok key) m f k h =
      if-cases
        (λ (x : Option StateInfo).
          ◌≡◌ {A = S × Result (Option StateInfo)} (u, ok x) (t, ok (some info))
          → IsSignature raw sig)
        (sig == sign_state o raw key) (some (info_of p)) none
        (λ e g. (
          p,
          key,
          m,
          f,
          k ∙ (λ i. ((g i).0, ok key)),
          (eq_iff sig (sign_state o raw key)).0 e,
          some-eq (info_of p) (λ i. (g i).1),
        ))
        (λ _ g. absurd (none-ne u g)) h

  of_payload :
      (raw sig : String) (x : Option SignedStatePayload)
      → o.unmarshal raw ≡ x
      → Accepts (check_payload o cfg provider raw sig x s)
      → IsSignature raw sig
  unfolding return ◌>>=◌
  of_payload raw sig none m h = absurd (none-ne s h)
  of_payload raw sig (some p) m h =
      if-cases (λ (f : S → S × Result (Option StateInfo)). Accepts (f s) → IsSignature raw sig)
        (is_for provider p)
        (state_signing_key o cfg provider p.credential_id >>= if_signed o raw sig p) (return none)
        (λ f g. of_key raw sig p (state_signing_key o cfg provider p.credential_id s) m f refl g)
        (λ _ g. absurd (none-ne s g)) h

  of_decoded :
      (state a b : String) (x y : Option String)
      → two_parts state ≡ some (a, b)
      → o.decode a ≡ x
      → o.decode b ≡ y
      → Accepts (read_payload o cfg provider x y s)
      → IsSigned state
  unfolding return
  of_decoded state a b none y w u v h = absurd (none-ne s h)
  of_decoded state a b (some raw) none w u v h = absurd (none-ne s h)
  of_decoded state a b (some raw) (some sig) w u v h =
      (a, b, raw, sig, w, u, v, of_payload raw sig (o.unmarshal raw) refl h)

  of_parts :
      (state : String) (x : Option (String × String))
      → two_parts state ≡ x
      → Accepts (consume_parts o cfg provider x s)
      → IsSigned state
  unfolding return
  of_parts state none w h = absurd (none-ne s h)
  of_parts state (some (a, b)) w h = of_decoded state a b (o.decode a) (o.decode b) w refl refl h

  -- consumeState accepts a state for a provider only if the state is the encoding of a text and of its
  -- signature, the signature is the one of the client secret that the configuration now has for that
  -- provider and the login's credential, the text says that the login is one of that provider, in
  -- version 1, with a credential and a nonce, and the user, the credential and the redirect URI that
  -- are returned are those of the text.
  pub consume_state-IsSigned :
      (state : String) → consume_state o cfg state provider s ≡ (t, ok (some info)) → IsSigned state
  unfolding consume_state return
  consume_state-IsSigned state h =
      if-cases (λ (f : S → S × Result (Option StateInfo)). Accepts (f s) → IsSigned state)
        (state == "") (return none) (consume_parts o cfg provider (two_parts state))
        (λ _ g. absurd (none-ne s g)) (λ _ g. of_parts state (two_parts state) refl g) h
