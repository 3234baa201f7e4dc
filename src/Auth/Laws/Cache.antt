-- ===== src/Auth/Laws/Cache.antt =====
-- internal/auth/credential.go: how long a token is taken from the cache.
use scia.Base.{
  subst, le→ltb, ◌≤◌, ok-injective, err-ne-ok, ℕ, ◌+◌, ◌*◌, ◌<◌, String, Bool, some, Result, ok,
  err, ◌≡◌, refl, ap, ◌∙◌, lookup, insert, lookup-insert, eq_iff, if◌then◌else◌, ltb, lt→ltb, pos,
}
use scia.Auth.Clock.{is_live, add_duration, lifetime, second}
use scia.Auth.Laws.Clock.{lifetime-bounds}
use scia.Auth.Monad.{Op, ◌>>=◌, ◌>>◌, return, lift}
use scia.Secrets.Store.{after}
use scia.Auth.Tokens.{check_token, or_cached, use_token, store_token, take_token}
use scia.Auth.Types.{CachedToken, Cached, cached_token, Injector, AccessBody, Outside}

module _ {S : Type 0} (o : Outside S) where
  -- The state behind an answer that was taken: the token is in the cache for its lifetime.
  abbrev pub stored : String → AccessBody → Injector S → Injector S
  stored id b i = record i {
    cache =
        insert id
          (cached_token (record {
            access_token = b.access_token;
            expires_at = add_duration (o.now i.world) (lifetime b.expires_in);
          }))
          i.cache;
  }

  abbrev entry : AccessBody → Injector S → Cached
  entry b i = cached_token (record {
    access_token = b.access_token;
    expires_at = add_duration (o.now i.world) (lifetime b.expires_in);
  })

  or_cached-stored :
      (id : String) (rest : Op (Injector S) String) (b : AccessBody) (i : Injector S) (w : S)
      → or_cached o id rest (record (stored id b i) { world = w })
        ≡ use_token o (some (entry b i)) rest (record (stored id b i) { world = w })
  unfolding or_cached
  or_cached-stored id rest b i w =
      ap (λ c. use_token o c rest (record (stored id b i) { world = w }))
        (lookup-insert id id (entry b i) i.cache
          ∙ ap (λ t. if t then some (entry b i) else lookup id i.cache) ((eq_iff id id).1 refl))

  take_token-stored :
      (supported : String → Bool) (id token : String) (b : AccessBody) (i j : Injector S)
      → take_token o supported id b i ≡ (j, ok token)
      → (stored id b i ≡ j) × (b.access_token ≡ token)
  unfolding ◌>>=◌ lift return store_token
  take_token-stored supported id token b i j = go (check_token supported b)
    where
      go :
          (r : Result (Unit {0}))
          → after
              (λ _.
                store_token o id b.access_token (lifetime b.expires_in) >> return b.access_token)
              (i, r)
            ≡ (j, ok token)
          → (stored id b i ≡ j) × (b.access_token ≡ token)
      go (ok a) h = (λ k. (h k).0, ok-injective (λ k. (h k).1))
      go (err e) h = absurd (err-ne-ok e (λ k. (h k).1))

  use_token-live :
      (t : CachedToken) (rest : Op (Injector S) String) (i : Injector S) {b : Bool}
      → is_live (o.now i.world) t.expires_at ≡ b
      → use_token o (some (cached_token t)) rest i ≡ (if b then (i, ok t.access_token) else rest i)
  use_token-live t rest i h = ap (λ b. if b then (i, ok t.access_token) else rest i) h

  -- Once an answer of a token endpoint has been taken, its token is used for a lifetime n that is that
  -- of `expires_in`: until 30 seconds before its end a later call returns the token and does nothing
  -- else, whatever has become of the world, and from then on the rest of the function runs.
  pub or_cached-take_token :
      (supported : String → Bool) (id token : String) (rest : Op (Injector S) String)
      (b : AccessBody) (i j : Injector S) (w : S)
      → take_token o supported id b i ≡ (j, ok token)
      → (n : ℕ) × (lifetime b.expires_in ≡ pos n)
        × (o.now w + 30 * second < o.now i.world + n
            → or_cached o id rest (record j { world = w }) ≡ (record j { world = w }, ok token))
        × (o.now i.world + n ≤ o.now w + 30 * second
            → or_cached o id rest (record j { world = w }) ≡ rest (record j { world = w }))
  or_cached-take_token supported id token rest b i j w h =
      let ((n, e, _, _), _) = lifetime-bounds b.expires_in in
      let (at, is) = take_token-stored supported id token b i j h in
      (
        n,
        e,
        λ live.
            subst
              (λ k.
                or_cached o id rest (record k { world = w }) ≡ (record k { world = w }, ok token))
              at
              (or_cached-stored id rest b i w
                ∙ use_token-live _ rest _
                    (ends n e (lt→ltb (o.now w + 30 * second) (o.now i.world + n) live))
                ∙ ap (λ t. (record (stored id b i) { world = w }, ok t)) is),
        λ over.
            subst
              (λ k. or_cached o id rest (record k { world = w }) ≡ rest (record k { world = w })) at
              (or_cached-stored id rest b i w
                ∙ use_token-live _ rest _
                    (ends n e (le→ltb (o.now w + 30 * second) (o.now i.world + n) over))),
      )
    where
      ends :
          (n : ℕ)
          → lifetime b.expires_in ≡ pos n
          → {t : Bool} → ltb (o.now w + 30 * second) (o.now i.world + n) ≡ t
          → is_live (o.now w) (add_duration (o.now i.world) (lifetime b.expires_in)) ≡ t
      ends n e h = ap (λ d. is_live (o.now w) (add_duration (o.now i.world) d)) e ∙ h
