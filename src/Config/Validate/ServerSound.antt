-- ===== src/Config/Validate/ServerSound.antt =====
-- What Config.Validate establishes of the server's modes and of the secret store's settings as a whole.
use scia.Base.{
  String, [], ◌∷◌, false, ◌==◌, contains, ◌≡◌, ◌≢◌, refl, arith, eq_iff, Result, ok, >>=-eq-ok,
  >>-eq-ok, guard-eq-ok, Elem, Elem-of_contains, ne_of_test, is_zero, ℤ, ok-injective, subst, guard,
  if◌then◌else◌,
}
use scia.Config.Types.{ServerConfig, SecretsConfig, KubernetesSecretsConfig}
use scia.Config.Platform.{Platform}
use scia.Config.Ids.{default_to, default_to-ne}
use scia.Config.Validate.StoreSound.{
  IsValidEnvelope, IsValidKubernetes, envelope-IsValid, kubernetes-IsValid,
}
use scia.Config.Validate.Server.{
  validate_mode, validate_secrets_mode, validate_envelope, validate_kubernetes, validate_external,
  check_optional_url, validate_secrets, validate_server, five_minutes,
}

pub record IsValidServer (s : ServerConfig) : Type 0 where
  pub mode : Elem s.mode ("proxy" ∷ "oauth" ∷ [])
  pub approval : is_zero s.approval_timeout ≡ false
  pub secrets_mode : Elem s.secrets.mode ("sqlite" ∷ "kubernetes" ∷ "external" ∷ [])
  pub sqlite_path : s.secrets.sqlite_path ≢ ""
  pub envelope :
      s.secrets.envelope_encryption.provider ≢ ""
      → IsValidEnvelope s.mode s.secrets.mode s.secrets.envelope_encryption
  pub kubernetes : s.secrets.mode ≡ "kubernetes" → IsValidKubernetes s.users s.secrets.kubernetes

mode-facts :
    (s s' : ServerConfig)
    → validate_mode s ≡ ok s'
    → Elem s'.mode ("proxy" ∷ "oauth" ∷ []) × (is_zero s'.approval_timeout ≡ false)
unfolding validate_mode
mode-facts s s' h =
    let mode = default_to "proxy" s.mode in
    let (h₁, r₁) = >>-eq-ok (guard (contains ("proxy" ∷ "oauth" ∷ []) mode) _) _ h in
    subst (λ t. Elem t.mode ("proxy" ∷ "oauth" ∷ []) × (is_zero t.approval_timeout ≡ false))
      (ok-injective r₁)
      (
        Elem-of_contains ("proxy" ∷ "oauth" ∷ []) mode (guard-eq-ok _ _ h₁),
        timeout s.approval_timeout,
      )
  where
    timeout : (t : ℤ) → is_zero (if is_zero t then five_minutes else t) ≡ false
    timeout t = ground arith

secrets_mode-facts :
    (s s' : SecretsConfig)
    → validate_secrets_mode s ≡ ok s'
    → Elem s'.mode ("sqlite" ∷ "kubernetes" ∷ "external" ∷ []) × (s'.sqlite_path ≢ "")
unfolding validate_secrets_mode
secrets_mode-facts s s' h =
    let mode = default_to "sqlite" s.mode in
    let (h₁, r₁) =
      >>-eq-ok (guard (contains ("sqlite" ∷ "kubernetes" ∷ "external" ∷ []) mode) _) _ h in
    subst (λ t. Elem t.mode ("sqlite" ∷ "kubernetes" ∷ "external" ∷ []) × (t.sqlite_path ≢ ""))
      (ok-injective r₁)
      (
        Elem-of_contains ("sqlite" ∷ "kubernetes" ∷ "external" ∷ []) mode (guard-eq-ok _ _ h₁),
        default_to-ne "data/scia-secrets.db" s.sqlite_path
            (ne_of_test "data/scia-secrets.db" "" refl),
      )

-- The part of `IsValidServer` that is about the secret store.
abbrev IsValidSecrets : ServerConfig → SecretsConfig → Type 0
IsValidSecrets server s =
    Elem s.mode ("sqlite" ∷ "kubernetes" ∷ "external" ∷ [])
    × (s.sqlite_path ≢ "")
    × (s.envelope_encryption.provider ≢ ""
        → IsValidEnvelope server.mode s.mode s.envelope_encryption)
    × (s.mode ≡ "kubernetes" → IsValidKubernetes server.users s.kubernetes)

module _ (p : Platform) where
  secrets-IsValid :
      (server : ServerConfig) (s : SecretsConfig)
      → validate_secrets p server ≡ ok s
      → IsValidSecrets server s
  unfolding validate_secrets
  secrets-IsValid server s h =
      let (t, h₁, r₁) = >>=-eq-ok (validate_secrets_mode server.secrets) _ h in
      let (e, h₂, r₂) =
        >>=-eq-ok (validate_envelope p server.mode t.mode t.envelope_encryption) _ r₁ in
      let (k, h₃, r₃) =
        >>=-eq-ok
          (if t.mode == "kubernetes"
            then validate_kubernetes server.users t.kubernetes
            else ok t.kubernetes)
          _ r₂ in
      let (h₄, r₄) =
        >>-eq-ok (if t.mode == "external" then validate_external p t else ok tt) _ r₃ in
      let (mode, path) = secrets_mode-facts server.secrets t h₁ in
      subst (IsValidSecrets server) (ok-injective r₄) (
        mode,
        path,
        λ n. envelope-IsValid p server.mode t.mode t.envelope_encryption e h₂ n,
        λ q. kubernetes-IsValid server.users t.kubernetes k (only t.mode _ _ q h₃),
      )
    where
      only :
          (m : String) (a b : Result KubernetesSecretsConfig) {k : KubernetesSecretsConfig}
          → m ≡ "kubernetes"
          → (if m == "kubernetes" then a else b) ≡ ok k
          → a ≡ ok k
      only m a b q h = ground (arith, eq_iff m "kubernetes")

  pub validate_server-IsValid :
      (s s' : ServerConfig) → validate_server p s ≡ ok s' → IsValidServer s'
  unfolding validate_server
  validate_server-IsValid s s' h =
      let (t, h₁, r₁) = >>=-eq-ok (validate_mode s) _ h in
      let (secrets, h₂, r₂) = >>=-eq-ok (validate_secrets p t) _ r₁ in
      let (_, r₃) =
        >>-eq-ok (check_optional_url p "server.backendProxy.url" t.backend_proxy.url) _ r₂ in
      let (_, r₄) =
        >>-eq-ok (check_optional_url p "server.oauth.metadataUrl" t.oauth.metadata_url) _ r₃ in
      let (mode, approval) = mode-facts s t h₁ in
      let (secrets_mode, path, envelope, kubernetes) = secrets-IsValid t secrets h₂ in
      subst IsValidServer (ok-injective r₄) (record {
        mode = mode;
        approval = approval;
        secrets_mode = secrets_mode;
        sqlite_path = path;
        envelope = envelope;
        kubernetes = kubernetes;
      })
