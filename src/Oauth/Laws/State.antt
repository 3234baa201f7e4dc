-- ===== src/Oauth/Laws/State.antt =====
-- internal/oauth/server.go: the states that createState makes are the ones that consumeState accepts.
use Prim.Native.String.{◌++◌, ◌∷◌, []}
use text.Mathlib.TextLemmas.{nil-append, cons-append}
use scia.Base.{
  test_of_ne, ℤ, String, true, false, ◌==◌, Option, none, some, Result, ok, err, ◌≡◌, ◌≢◌, refl,
  sym, ap, ◌∙◌, if◌then◌else◌, eq_iff, Text-cases, inl, inr, err-ne-ok, ok-injective,
}
use scia.Auth.Monad.{return, ◌>>=◌}
use scia.Config.Types.{Config}
use scia.Go.{cut}
use scia.Go.CutLaws.{Without, cut_complete, cut-none}
use scia.Oauth.State.{
  unix, from_unix, two_parts, is_for, info_of, created, payload_of, signed, create_state,
  consume_state, read_payload, if_signed, check_payload, state_signing_key, sign_state,
}
use scia.Oauth.Types.{StateInfo, SignedStatePayload, Outside}
use scia.Secrets.Store.{after}

-- The codecs' documented behaviour: JSON and base64 lose nothing, and base64 has no dot.
pub record IsCodec {S : Type 0} (o : Outside S) : Type 0 where
  pub unmarshal-marshal : (p : SignedStatePayload) → o.unmarshal (o.marshal p) ≡ some p
  pub decode-encode : (s : String) → o.decode (o.encode s) ≡ some s
  pub encode-Without : (s : String) → Without b'.' (o.encode s)
  pub random-ne : (s t : S) (nonce : String) → o.random_state s ≡ (t, ok nonce) → nonce ≢ ""

two_parts-nil : two_parts "" ≡ none
unfolding two_parts
two_parts-nil = refl

dot-append : (b : String) → "." ++ b ≡ ◌∷◌ "." b
dot-append b = cons-append "." [] b ∙ ap (◌∷◌ ".") (nil-append b)

two_parts_of :
    (a b : String) → Without b'.' a → Without b'.' b → two_parts (a ++ ("." ++ b)) ≡ some (a, b)
unfolding two_parts
two_parts_of a b h k =
    ap split (ap (λ t. cut (a ++ t) b'.') (dot-append b) ∙ cut_complete "." a b h)
    ∙ ap (λ t. elim t [ none ↦ some (a, b) | some _ ↦ none ]) (cut-none b'.' b k)
  where
    split : Option (String × String) → Option (String × String)
    split none = none
    split (some (a, b)) = elim (cut b b'.') [ none ↦ some (a, b) | some _ ↦ none ]

module _ {S : Type 0} (o : Outside S) (laws : IsCodec o) (cfg : Config) (provider : String) where
  signed-ne : (p : SignedStatePayload) (key : String) → (signed o p key == "") ≡ false
  signed-ne p key = elim (Text-cases (signed o p key) "") [
    | inl e ↦ absurd (
        none-ne (
          sym (ap two_parts e ∙ two_parts-nil)
          ∙ two_parts_of _ _ (laws.encode-Without _) (laws.encode-Without _)))
    | inr e ↦ e
  ]
    where
      none-ne : {x : String × String} → ¬ (none ≡ some x)
      none-ne h = cc

  -- A payload of the provider, signed with the key that the provider's client has, is accepted.
  consume_state-signed :
      (p : SignedStatePayload) (key : String) (u v : S)
      → is_for provider p ≡ true
      → state_signing_key o cfg provider p.credential_id u ≡ (v, ok key)
      → consume_state o cfg (signed o p key) provider u ≡ (v, ok (some (info_of p)))
  unfolding consume_state return ◌>>=◌
  consume_state-signed p key u v f k =
      let raw = o.marshal p in
      let sig = sign_state o raw key in
      let here : consume_state o cfg (signed o p key) provider u
          ≡ read_payload o cfg provider (some raw) (some sig) u =
        rw
          (
            signed-ne p key,
            two_parts_of (o.encode raw) (o.encode sig) (laws.encode-Without raw)
                (laws.encode-Without sig),
            laws.decode-encode raw,
            laws.decode-encode sig,
          )
          refl in
      here
      ∙ ap (λ m. check_payload o cfg provider raw sig m u) (laws.unmarshal-marshal p)
      ∙ ap
          (λ b.
            (if b
                then (state_signing_key o cfg provider p.credential_id >>= if_signed o raw sig p)
                else return none)
              u)
          f
      ∙ ap (after (if_signed o raw sig p)) k
      ∙ ap (λ b. (v, ok (if b then some (info_of p) else none))) ((eq_iff sig sig).1 refl)

module _ {S : Type 0} (o : Outside S) (cfg : Config) (provider : String) (info : StateInfo) where
  -- What createState has done when it succeeds.
  abbrev Created : S → S → String → Type 0
  Created s t state =
      (nonce : String) × (key : String) × (a : S) × (o.random_state s ≡ (a, ok nonce))
      × (state_signing_key o cfg provider info.credential_id a ≡ (t, ok key))
      × (signed o (payload_of o provider info (created o info s) nonce) key ≡ state)

  of_key :
      (s t a : S) (nonce state : String) (y : S × Result String)
      → o.random_state s ≡ (a, ok nonce)
      → state_signing_key o cfg provider info.credential_id a ≡ y
      → after (λ key. return (signed o (payload_of o provider info (created o info s) nonce) key)) y
        ≡ (t, ok state)
      → Created s t state
  unfolding return
  of_key s t a nonce state (b, ok key) x y f =
      (nonce, key, a, x, y ∙ (λ i. ((f i).0, ok key)), ok-injective (λ i. (f i).1))
  of_key s t a nonce state (b, err e) x y f = absurd (err-ne-ok e (λ i. (f i).1))

  of_nonce :
      (s t : S) (state : String) (x : S × Result String)
      → o.random_state s ≡ x
      → after
          (λ nonce. state_signing_key o cfg provider info.credential_id >>= λ key.
            return (signed o (payload_of o provider info (created o info s) nonce) key))
          x
        ≡ (t, ok state)
      → Created s t state
  unfolding ◌>>=◌
  of_nonce s t state (a, ok nonce) x f =
      of_key s t a nonce state (state_signing_key o cfg provider info.credential_id a) x refl f
  of_nonce s t state (a, err e) x f = absurd (err-ne-ok e (λ i. (f i).1))

  create_state-Created :
      (s t : S) (state : String)
      → create_state o cfg provider info s ≡ (t, ok state)
      → Created s t state
  unfolding create_state ◌>>=◌
  create_state-Created s t state f = of_nonce s t state (o.random_state s) refl f

is_for-payload_of :
    {S : Type 0} (o : Outside S) (provider : String) (info : StateInfo) (time : ℤ) (nonce : String)
    → info.credential_id ≢ ""
    → nonce ≢ ""
    → is_for provider (payload_of o provider info time nonce) ≡ true
is_for-payload_of o provider info time nonce h k =
    rw
      ((eq_iff provider provider).1 refl, test_of_ne info.credential_id "" h, test_of_ne nonce "" k)
      refl

-- A login comes back as it has left. With codecs that behave as documented, and for a login of a
-- credential with an id: once createState has made a state with some key, consumeState accepts that
-- state for the same provider, under whatever configuration still gives the same key for the
-- credential, and returns the user, the credential and the redirect URI that the state was made for,
-- with the time at which it was made, in whole seconds.
pub consume_state-create_state :
    {S : Type 0} (o : Outside S) (laws : IsCodec o) (cfg cfg' : Config) (provider state : String)
    (info : StateInfo) (s t : S)
    → info.credential_id ≢ ""
    → create_state o cfg provider info s ≡ (t, ok state)
    → (key : String) × (a : S) × (state_signing_key o cfg provider info.credential_id a
        ≡ (t, ok key))
      × ((u v : S)
          → state_signing_key o cfg' provider info.credential_id u ≡ (v, ok key)
          → consume_state o cfg' state provider u ≡ (
            v,
            ok (some (record info { created_at = some (from_unix (unix (created o info s))) })),
          ))
consume_state-create_state o laws cfg cfg' provider state info s t h f =
    let (nonce, key, a, x, y, z) = create_state-Created o cfg provider info s t state f in
    let p = payload_of o provider info (created o info s) nonce in
    (
      key,
      a,
      y,
      λ u v k.
          ap (λ q. consume_state o cfg' q provider u) (sym z)
          ∙ consume_state-signed o laws cfg' provider p key u v
              (is_for-payload_of o provider info (created o info s) nonce h
                (laws.random-ne s a nonce x))
              k,
    )
