-- ===== src/Auth/Laws/Rotation.antt =====
-- internal/auth/credential.go: a refresh token that a provider has replaced, and what is read after.
use scia.Base.{String, Bool, true, false, some, Result, ok, ◌≡◌, refl, ap, if◌then◌else◌}
use scia.Auth.Secrets.{
  credential_secret_key, is_legacy, env_param, rebuild, or_legacy, stored_value, secret_value,
  rotating_secret_value, put_credential_secret,
}
use scia.Auth.Types.{Injector, Outside}
use scia.Config.Ids.{is_set}
use scia.Config.Lookup.{credential_user_id}
use scia.Config.Types.{Config, CredentialConfig}
use scia.Go.{some_or}
use scia.Auth.Monad.{Op, ◌>>=◌, return}
use scia.Secrets.Store.{after}

-- A store that returns what was put into it.
abbrev pub Remembers : {S : Type 0} → Outside S → Type 0
Remembers {S} o =
    (user key value : String) (s t : S)
    → o.store.put user key value s ≡ (t, ok tt)
    → o.store.get user key t ≡ (t, ok (some value))

module _ {S : Type 0} (o : Outside S) where
  rebuild-ok :
      {A : Type 0} (i j : Injector S) (x : S × Result A) (a : A)
      → rebuild o i x ≡ (j, ok a)
      → (x ≡ (j.world, ok a)) × (i.cache ≡ j.cache)
  rebuild-ok i j (s, r) a h = (λ k. ((h k).0.world, (h k).1), λ k. (h k).0.cache)

  pub stored_value-put :
      Remembers o
      → (cfg : Config) (cred : CredentialConfig) (key value : String) (i j : Injector S)
      → put_credential_secret o cfg cred key value i ≡ (j, ok tt)
      → stored_value o cfg cred key j ≡ (j, ok (some value))
  unfolding ◌>>=◌ put_credential_secret stored_value return
  stored_value-put h cfg cred key value i j e =
      let user = credential_user_id cfg cred in
      let at = credential_secret_key cfg cred user key in
      let (put, _) = rebuild-ok i j (o.store.put user at value i.world) tt e in
      λ k.
        after (or_legacy o (is_legacy cred at key) user key)
          (rebuild o j (h user at value i.world j.world put k))

  -- With a store that returns what was put into it: once a credential's secret has been stored,
  -- rotatingSecretValue reads it back whatever the credential's parameters say, and secretValue does
  -- so only where they do not give the secret; where they do, it reads theirs. Neither changes the
  -- state.
  pub secret_value-put_credential_secret :
      Remembers o
      → (cfg : Config) (cred : CredentialConfig) (key value : String) (i j : Injector S)
      → put_credential_secret o cfg cred key value i ≡ (j, ok tt)
      → (rotating_secret_value o cfg cred key j ≡ (j, ok value))
        × (secret_value o cfg cred key j
            ≡ (j, ok (if is_set (env_param o cred key) then env_param o cred key else value)))
  unfolding ◌>>=◌ return rotating_secret_value secret_value
  secret_value-put_credential_secret h cfg cred key value i j e =
      let read = stored_value-put h cfg cred key value i j e in
      (
        ap (after (λ v. λ s. (s, ok (some_or v (env_param o cred key))))) read,
        pick (is_set (env_param o cred key)) _ _
            (ap (after (λ v. λ s. (s, ok (some_or v "")))) read),
      )
    where
      pick :
          (b : Bool) (x : String) (m : Op (Injector S) String)
          → m j ≡ (j, ok value)
          → (if b then (λ s. (s, ok x)) else m) j ≡ (j, ok (if b then x else value))
      pick true x m h = refl
      pick false x m h = h
