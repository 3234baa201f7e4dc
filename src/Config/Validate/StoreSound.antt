-- ===== src/Config/Validate/StoreSound.antt =====
-- What Config.Validate establishes of the envelope encryption and of the Kubernetes store.
use scia.Base.{
  String, List, [], Bool, true, false, not, ◌&&◌, ◌==◌, contains, ◌≡◌, ◌≢◌, refl, ◌⊎◌, inl, inr,
  arith, eq_iff, ok, >>-eq-ok, guard-eq-ok, refuse-eq-ok, for_each, for_each_sound, All, Elem,
  not-Elem_of_contains, ne_of_test, some, is_negative, ℤ, pos, ok-injective, subst, refuse, guard,
  Text-cases, keys, is_empty, ne_of_is_empty,
}
use scia.Config.Types.{EnvelopeEncryptionConfig, KubernetesSecretsConfig, UserConfig}
use scia.Config.Platform.{Platform}
use scia.Config.Ids.{default_to, default_to-ne}
use scia.Config.Names.{valid_secret_name_prefix}
use scia.Config.Validate.Server.{
  validate_provider, fill_envelope, validate_envelope, check_user, validate_kubernetes,
  five_minutes, option_or,
}

-- The provider fits the server's mode, the cache's settings are present and not negative, and the
-- context leaves the two keys to scia.
pub record IsValidEnvelope (mode secrets_mode : String) (e : EnvelopeEncryptionConfig)
    : Type 0 where
  pub sqlite : secrets_mode ≡ "sqlite"
  pub provider :
      ((e.provider ≡ "aws-kms") × (mode ≡ "oauth") × (e.aws_kms.key_id ≢ ""))
      ⊎ ((e.provider ≡ "kms-broker") × (mode ≡ "proxy"))
  pub ttl : (t : ℤ) × (e.cache_ttl ≡ some t) × (is_negative t ≡ false)
  pub entries : (n : ℤ) × (e.cache_max_entries ≡ some n) × (is_negative n ≡ false)
  pub free_id : ¬ Elem "scia_credential_id" (keys e.encryption_context)
  pub free_key : ¬ Elem "scia_secret_key" (keys e.encryption_context)

pub record IsValidKubernetes (users : List (String × UserConfig)) (k : KubernetesSecretsConfig)
    : Type 0 where
  pub namespace : k.namespace ≢ ""
  pub prefix_set : k.dynamic_user_secret_name_prefix ≢ ""
  pub some_user : k.dynamic_users ≡ false → users ≢ []
  pub prefix :
      k.dynamic_users ≡ true → valid_secret_name_prefix k.dynamic_user_secret_name_prefix ≡ true
  pub named : All (λ u. (u.0 ≢ "") × (u.1.secret_name ≢ "")) users

module _ (p : Platform) where
  provider-facts :
      (mode : String) (e : EnvelopeEncryptionConfig)
      → validate_provider p mode e ≡ ok tt
      → ((e.provider ≡ "aws-kms") × (mode ≡ "oauth") × (e.aws_kms.key_id ≢ ""))
        ⊎ ((e.provider ≡ "kms-broker") × (mode ≡ "proxy"))
  unfolding validate_provider
  provider-facts mode e h = ground (
    arith,
    eq_iff e.provider "aws-kms",
    eq_iff e.provider "kms-broker",
    eq_iff mode "oauth",
    eq_iff mode "proxy",
    eq_iff e.aws_kms.key_id "",
  )

  fill_envelope-IsValid :
      (mode secrets_mode : String) (e e' : EnvelopeEncryptionConfig)
      → fill_envelope p mode secrets_mode e ≡ ok e'
      → IsValidEnvelope mode secrets_mode e'
  unfolding fill_envelope
  fill_envelope-IsValid mode secrets_mode e e' h =
      let ttl = option_or five_minutes e.cache_ttl in
      let entries = option_or (pos 1000) e.cache_max_entries in
      let (h₁, r₁) = >>-eq-ok (guard (secrets_mode == "sqlite") _) _ h in
      let (h₂, r₂) = >>-eq-ok (validate_provider p mode e) _ r₁ in
      let (h₃, r₃) = >>-eq-ok (refuse (is_negative ttl) _) _ r₂ in
      let (h₄, r₄) = >>-eq-ok (refuse (is_negative entries) _) _ r₃ in
      let (h₅, r₅) =
        >>-eq-ok (refuse (contains (keys e.encryption_context) "scia_credential_id") _) _ r₄ in
      let (h₆, r₆) =
        >>-eq-ok (refuse (contains (keys e.encryption_context) "scia_secret_key") _) _ r₅ in
      subst (IsValidEnvelope mode secrets_mode) (ok-injective r₆) (record {
        sqlite = (eq_iff secrets_mode "sqlite").0 (guard-eq-ok _ _ h₁);
        provider = provider-facts mode e h₂;
        ttl = (ttl, refl, refuse-eq-ok _ _ h₃);
        entries = (entries, refl, refuse-eq-ok _ _ h₄);
        free_id = not-Elem_of_contains _ _ (refuse-eq-ok _ _ h₅);
        free_key = not-Elem_of_contains _ _ (refuse-eq-ok _ _ h₆);
      })

  -- With no provider nothing is checked, and the settings stay as they are.
  pub envelope-IsValid :
      (mode secrets_mode : String) (e e' : EnvelopeEncryptionConfig)
      → validate_envelope p mode secrets_mode e ≡ ok e'
      → e'.provider ≢ ""
      → IsValidEnvelope mode secrets_mode e'
  unfolding validate_envelope
  envelope-IsValid mode secrets_mode e e' h s = elim (Text-cases e.provider "") [
    | inl n ↦ absurd (s (subst (λ d. d.provider ≡ "") (ok-injective (unset h n)) n))
    | inr y ↦ fill_envelope-IsValid mode secrets_mode e e' (set h y)
  ]
    where
      unset : validate_envelope p mode secrets_mode e ≡ ok e' → e.provider ≡ "" → ok e ≡ ok e'
      unset h n = ground (arith, eq_iff e.provider "")

      set :
          validate_envelope p mode secrets_mode e ≡ ok e'
          → (e.provider == "") ≡ false
          → fill_envelope p mode secrets_mode e ≡ ok e'
      set h y = rw y at h

pub kubernetes-IsValid :
    (users : List (String × UserConfig)) (k k' : KubernetesSecretsConfig)
    → validate_kubernetes users k ≡ ok k'
    → IsValidKubernetes users k'
unfolding validate_kubernetes check_user
kubernetes-IsValid users k k' h =
    let prefix = default_to "scia-oauth-" k.dynamic_user_secret_name_prefix in
    let (h₁, r₁) = >>-eq-ok (refuse (not k.dynamic_users && is_empty users) _) _ h in
    let (h₂, r₂) =
      >>-eq-ok (refuse (k.dynamic_users && not (valid_secret_name_prefix prefix)) _) _ r₁ in
    let (h₃, r₃) = >>-eq-ok (for_each check_user users) _ r₂ in
    subst (IsValidKubernetes users) (ok-injective r₃) (record {
      namespace = default_to-ne "default" k.namespace (ne_of_test "default" "" refl);
      prefix_set =
          default_to-ne "scia-oauth-" k.dynamic_user_secret_name_prefix
            (ne_of_test "scia-oauth-" "" refl);
      some_user = λ e. ne_of_is_empty users (some_user k.dynamic_users _ e (refuse-eq-ok _ _ h₁));
      prefix = λ e. prefix_ok k.dynamic_users _ e (refuse-eq-ok _ _ h₂);
      named = for_each_sound check_user _ users named h₃;
    })
  where
    some_user : (b e : Bool) → b ≡ false → (not b && e) ≡ false → e ≡ false
    some_user b e h k = ground arith

    prefix_ok : (b v : Bool) → b ≡ true → (b && not v) ≡ false → v ≡ true
    prefix_ok b v h k = ground arith

    named : (u : String × UserConfig) → check_user u ≡ ok tt → (u.0 ≢ "") × (u.1.secret_name ≢ "")
    named u h = (ne_of_test u.0 "" (ground arith), ne_of_test u.1.secret_name "" (ground arith))
