-- ===== src/Config/Validate/Endpoints.antt =====
-- What Config.Validate establishes of the URLs and the tokens of the services that scia calls.
use scia.Base.{
  String, true, ◌==◌, some, Option-cases, ok, ◌≡◌, ◌≢◌, refl, sym, ◌∙◌, ◌⊎◌, inl, inr, arith,
  eq_iff, >>=-eq-ok, >>-eq-ok, guard-eq-ok, refuse-eq-ok, ok-injective, refuse, guard, subst,
  ne_of_test, test_of_ne, Text-cases, is_negative, pos, contains, keys, if◌then◌else◌,
}
use scia.Config.Types.{ServerConfig, SecretsConfig, EnvelopeEncryptionConfig}
use scia.Config.Env.{header_value_from_env}
use scia.Config.Platform.{Platform, ParsedUrl}
use scia.Config.Validate.Server.{
  validate_mode, validate_secrets_mode, validate_provider, fill_envelope, validate_envelope,
  validate_kubernetes, validate_external, check_url, check_optional_url, is_web_url, is_web_scheme,
  option_or, five_minutes, validate_secrets, validate_server,
}

module _ (p : Platform) where
  abbrev expanded : String → String
  expanded raw = header_value_from_env p.getenv raw

  -- The text is a URL over http or https with a host.
  abbrev pub IsWebUrl : String → Type 0
  IsWebUrl raw =
      (u : ParsedUrl) × (p.parse_url raw ≡ some u)
      × ((u.scheme ≡ "http") ⊎ (u.scheme ≡ "https"))
      × (u.host ≢ "")

  -- With the variables of the environment in place: the external store has a URL and a key, the key
  -- broker has a URL and every provider of encryption a token, and the URLs that may be left empty are
  -- URLs where they are not.
  pub record HasEndpoints (s : ServerConfig) : Type 0 where
    pub external :
        s.secrets.mode ≡ "external"
        → IsWebUrl (expanded s.secrets.external.webhook.url)
          × (expanded s.secrets.external.webhook.secret_key ≢ "")
    pub broker :
        s.secrets.envelope_encryption.provider ≡ "kms-broker"
        → IsWebUrl (expanded s.secrets.envelope_encryption.kms_broker.url)
    pub broker_token :
        s.secrets.envelope_encryption.provider ≢ ""
        → expanded s.secrets.envelope_encryption.kms_broker.token ≢ ""
    pub backend_proxy :
        (expanded s.backend_proxy.url ≡ "") ⊎ IsWebUrl (expanded s.backend_proxy.url)
    pub metadata : (expanded s.oauth.metadata_url ≡ "") ⊎ IsWebUrl (expanded s.oauth.metadata_url)

  scheme-cases :
      (u : ParsedUrl) → is_web_scheme u ≡ true → (u.scheme ≡ "http") ⊎ (u.scheme ≡ "https")
  scheme-cases u h = ground (arith, eq_iff u.scheme "http", eq_iff u.scheme "https")

  check_url-IsWebUrl : (field raw : String) → check_url p field raw ≡ ok tt → IsWebUrl raw
  unfolding check_url
  check_url-IsWebUrl field raw h = elim (Option-cases (p.parse_url raw)) [
    | inl e ↦ absurd (ground arith)
    | inr (u, e) ↦ (u, e, scheme-cases u (ground arith), ne_of_test u.host "" (ground arith))
  ]

  is_web_url-IsWebUrl : (raw : String) → is_web_url (p.parse_url raw) ≡ true → IsWebUrl raw
  is_web_url-IsWebUrl raw h = elim (Option-cases (p.parse_url raw)) [
    | inl e ↦ absurd (ground arith)
    | inr (u, e) ↦ (u, e, scheme-cases u (ground arith), ne_of_test u.host "" (ground arith))
  ]

  check_optional_url-cases :
      (field raw : String)
      → check_optional_url p field raw ≡ ok tt
      → (expanded raw ≡ "") ⊎ IsWebUrl (expanded raw)
  unfolding check_optional_url
  check_optional_url-cases field raw h = elim (Text-cases (expanded raw) "") [
    | inl e ↦ inl e
    | inr e ↦ inr (check_url-IsWebUrl field (expanded raw) (rw e at h))
  ]

  external-facts :
      (s : SecretsConfig)
      → validate_external p s ≡ ok tt
      → IsWebUrl (expanded s.external.webhook.url) × (expanded s.external.webhook.secret_key ≢ "")
  unfolding validate_external
  external-facts s h =
      let url = expanded s.external.webhook.url in
      let (_, r₁) = >>-eq-ok (refuse (url == "") _) _ h in
      let (h₂, r₂) = >>-eq-ok (check_url p "server.secrets.external.webhook.url" url) _ r₁ in
      (
        check_url-IsWebUrl _ url h₂,
        ne_of_test (expanded s.external.webhook.secret_key) "" (refuse-eq-ok _ _ r₂),
      )

  -- What the check of a provider establishes.
  abbrev HasBroker : EnvelopeEncryptionConfig → Type 0
  HasBroker e =
      (e.provider ≡ "kms-broker" → IsWebUrl (expanded e.kms_broker.url))
      × (e.provider ≢ "" → expanded e.kms_broker.token ≢ "")

  broker-IsWebUrl :
      (mode : String) (e : EnvelopeEncryptionConfig)
      → e.provider ≡ "kms-broker"
      → validate_provider p mode e ≡ ok tt
      → IsWebUrl (expanded e.kms_broker.url)
  unfolding validate_provider
  broker-IsWebUrl mode e b h =
      let is_broker = (eq_iff e.provider "kms-broker").1 b in
      let not_aws = test_of_ne e.provider "aws-kms" (λ a. other (sym b ∙ a)) in
      let (_, r₁) = >>-eq-ok (guard (mode == "proxy") _) _ (rw (not_aws, is_broker) at h) in
      let (h₂, _) =
        >>-eq-ok (guard (is_web_url (p.parse_url (expanded e.kms_broker.url))) _) _ r₁ in
      is_web_url-IsWebUrl (expanded e.kms_broker.url) (guard-eq-ok _ _ h₂)
    where
      other : ◌≢◌ {A = String} "kms-broker" "aws-kms"
      other a = ne_of_test "kms-broker" "aws-kms" refl a

  provider-HasBroker :
      (mode : String) (e : EnvelopeEncryptionConfig)
      → validate_provider p mode e ≡ ok tt
      → HasBroker e
  unfolding validate_provider
  provider-HasBroker mode e h = (
    λ b. broker-IsWebUrl mode e b h,
    λ _. ne_of_test (expanded e.kms_broker.token) "" (ground arith),
  )

  envelope-HasBroker :
      (mode secrets_mode : String) (e e' : EnvelopeEncryptionConfig)
      → validate_envelope p mode secrets_mode e ≡ ok e'
      → HasBroker e'
  unfolding validate_envelope fill_envelope
  envelope-HasBroker mode secrets_mode e e' h = elim (Text-cases e.provider "") [
    | inl n ↦
        let unset : e ≡ e' = ok-injective (rw ((eq_iff e.provider "").1 n) at h) in
        subst HasBroker unset
          ((λ b. absurd (ne_of_test "" "kms-broker" refl (sym n ∙ b))), (λ m. absurd (m n)))
    | inr y ↦
        let (_, r₁) = >>-eq-ok (guard (secrets_mode == "sqlite") _) _ (rw y at h) in
        let (h₂, r₂) = >>-eq-ok (validate_provider p mode e) _ r₁ in
        let (_, r₃) = >>-eq-ok (refuse (is_negative (option_or five_minutes e.cache_ttl)) _) _ r₂ in
        let (_, r₄) =
          >>-eq-ok (refuse (is_negative (option_or (pos 1000) e.cache_max_entries)) _) _ r₃ in
        let (_, r₅) =
          >>-eq-ok (refuse (contains (keys e.encryption_context) "scia_credential_id") _) _ r₄ in
        let (_, r₆) =
          >>-eq-ok (refuse (contains (keys e.encryption_context) "scia_secret_key") _) _ r₅ in
        subst HasBroker (ok-injective r₆) (provider-HasBroker mode e h₂)
  ]

  -- The parts of HasEndpoints that are about the secret store.
  secrets-facts :
      (server : ServerConfig) (s : SecretsConfig)
      → validate_secrets p server ≡ ok s
      → HasBroker s.envelope_encryption
        × (s.mode ≡ "external"
            → IsWebUrl (expanded s.external.webhook.url)
              × (expanded s.external.webhook.secret_key ≢ ""))
  unfolding validate_secrets
  secrets-facts server s h =
      let (t, h₁, r₁) = >>=-eq-ok (validate_secrets_mode server.secrets) _ h in
      let (e, h₂, r₂) =
        >>=-eq-ok (validate_envelope p server.mode t.mode t.envelope_encryption) _ r₁ in
      let (k, h₃, r₃) =
        >>=-eq-ok
          (if t.mode == "kubernetes"
            then validate_kubernetes server.users t.kubernetes
            else ok t.kubernetes)
          _ r₂ in
      let (h₄, r₄) =
        >>-eq-ok (if t.mode == "external" then validate_external p t else ok tt) _ r₃ in
      subst
        (λ (x : SecretsConfig).
          HasBroker x.envelope_encryption
          × (x.mode ≡ "external"
              → IsWebUrl (expanded x.external.webhook.url)
                × (expanded x.external.webhook.secret_key ≢ "")))
        (ok-injective r₄)
        (
          envelope-HasBroker server.mode t.mode t.envelope_encryption e h₂,
          λ q. external-facts t (rw ((eq_iff t.mode "external").1 q) at h₄),
        )

  pub validate_server-HasEndpoints :
      (s s' : ServerConfig) → validate_server p s ≡ ok s' → HasEndpoints s'
  unfolding validate_server
  validate_server-HasEndpoints s s' h =
      let (t, h₁, r₁) = >>=-eq-ok (validate_mode s) _ h in
      let (secrets, h₂, r₂) = >>=-eq-ok (validate_secrets p t) _ r₁ in
      let (h₃, r₃) =
        >>-eq-ok (check_optional_url p "server.backendProxy.url" t.backend_proxy.url) _ r₂ in
      let (h₄, r₄) =
        >>-eq-ok (check_optional_url p "server.oauth.metadataUrl" t.oauth.metadata_url) _ r₃ in
      let ((broker, token), external) = secrets-facts t secrets h₂ in
      subst HasEndpoints (ok-injective r₄) (record {
        external = external;
        broker = broker;
        broker_token = token;
        backend_proxy = check_optional_url-cases _ t.backend_proxy.url h₃;
        metadata = check_optional_url-cases _ t.oauth.metadata_url h₄;
      })
