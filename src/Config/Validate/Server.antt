-- ===== src/Config/Validate/Server.antt =====
-- Config.Validate, from the server's mode to the metadata URL: defaults are filled in and the
-- settings of the secret stores are checked.
use scia.Base.{
  String, List, [], ◌∷◌, Bool, false, not, ◌&&◌, ◌||◌, ◌==◌, is_empty, contains, keys, Option, none,
  some, Result, ok, err, ◌>>◌, ◌>>=◌, refuse, guard, errorf, str, if◌then◌else◌, for_each, ℤ, pos,
  is_zero, is_negative,
}
use scia.Config.Types.{
  ServerConfig, SecretsConfig, EnvelopeEncryptionConfig, KubernetesSecretsConfig, UserConfig,
}
use scia.Config.Platform.{Platform, ParsedUrl}
use scia.Config.Env.{header_value_from_env}
use scia.Config.Names.{valid_secret_name_prefix}
use scia.Config.Ids.{default_to}

-- Five minutes, in nanoseconds.
abbrev pub five_minutes : ℤ
five_minutes = pos 300_000_000_000

-- The mode, and the defaults up to the mode of the secret store.
unfoldable pub validate_mode : ServerConfig → Result ServerConfig
validate_mode s =
    let mode = default_to "proxy" s.mode in
    guard (contains ("proxy" ∷ "oauth" ∷ []) mode) (errorf "server.mode must be proxy or oauth" [])
    >> ok (record s {
      mode = mode;
      approval_timeout = if is_zero s.approval_timeout then five_minutes else s.approval_timeout;
      mitm = record {
        ca_cert_path = default_to "data/scia-ca.pem" s.mitm.ca_cert_path;
        ca_key_path = default_to "data/scia-ca-key.pem" s.mitm.ca_key_path;
      };
    })

unfoldable pub validate_secrets_mode : SecretsConfig → Result SecretsConfig
validate_secrets_mode s =
    let mode = default_to "sqlite" s.mode in
    guard (contains ("sqlite" ∷ "kubernetes" ∷ "external" ∷ []) mode)
      (errorf "server.secrets.mode must be sqlite, kubernetes, or external" [])
    >> ok (record s { mode = mode; sqlite_path = default_to "data/scia-secrets.db" s.sqlite_path })

abbrev pub option_or {ℓ} : {A : Type ℓ} → A → Option A → A
option_or d none = d
option_or d (some a) = a

-- http or https
abbrev pub is_web_scheme : ParsedUrl → Bool
is_web_scheme u = u.scheme == "http" || u.scheme == "https"

abbrev pub is_web_url : Option ParsedUrl → Bool
is_web_url none = false
is_web_url (some u) = not (u.host == "") && is_web_scheme u

unfoldable pub check_user : String × UserConfig → Result (Unit {0})
check_user (id, user) = do
  refuse (id == "") (errorf "server.users cannot include an empty user id" [])
  refuse (user.secret_name == "") (errorf "server.users[%q].secretName is required" (str id ∷ []))

unfoldable pub validate_kubernetes :
    List (String × UserConfig) → KubernetesSecretsConfig → Result KubernetesSecretsConfig
unfolding check_user valid_secret_name_prefix
validate_kubernetes users k = do
  let prefix = default_to "scia-oauth-" k.dynamic_user_secret_name_prefix
  refuse (not k.dynamic_users && is_empty users)
      (errorf "server.users is required when server.secrets.mode is kubernetes" [])
  refuse (k.dynamic_users && not (valid_secret_name_prefix prefix)) (
      errorf
        "server.secrets.kubernetes.dynamicUserSecretNamePrefix must contain only lowercase letters, numbers, and hyphens, and start with a letter or number"
        [])
  for_each check_user users
  ok (record k {
    namespace = default_to "default" k.namespace;
    dynamic_user_secret_name_prefix = prefix;
  })

module _ (p : Platform) where
  open p use {getenv, parse_url}

  -- The three checks of a URL that the configuration names `field`.
  unfoldable pub check_url : String → String → Result (Unit {0})
  check_url field raw = elim (parse_url raw) [
    | none ↦ err (errorf "%s is invalid: %w" (str field ∷ []))
    | some u ↦
        guard (is_web_scheme u) (errorf "%s must use http or https scheme" (str field ∷ []))
        >> refuse (u.host == "") (errorf "%s must include a host" (str field ∷ []))
  ]

  -- The `switch` on the provider of the envelope encryption.
  unfoldable pub validate_provider : String → EnvelopeEncryptionConfig → Result (Unit {0})
  unfolding header_value_from_env
  validate_provider mode e =
      if e.provider == "aws-kms"
      then (do
        guard (mode == "oauth") (
            errorf
              "server.secrets.envelopeEncryption.provider aws-kms is supported only in oauth mode"
              [])
        refuse (e.aws_kms.key_id == "")
            (errorf "server.secrets.envelopeEncryption.awsKms.keyId is required" [])
        refuse (header_value_from_env getenv e.kms_broker.token == "")
            (errorf "server.secrets.envelopeEncryption.kmsBroker.token is required" []))
      else if e.provider == "kms-broker"
      then (do
        guard (mode == "proxy") (
            errorf
              "server.secrets.envelopeEncryption.provider kms-broker is supported only in proxy mode"
              [])
        guard (is_web_url (parse_url (header_value_from_env getenv e.kms_broker.url))) (
            errorf
              "server.secrets.envelopeEncryption.kmsBroker.url must be a valid http or https URL"
              [])
        refuse (header_value_from_env getenv e.kms_broker.token == "")
            (errorf "server.secrets.envelopeEncryption.kmsBroker.token is required" []))
      else err
          (errorf "server.secrets.envelopeEncryption.provider must be aws-kms or kms-broker" [])

  -- The envelope encryption of a provider: only for sqlite, with the defaults of its cache.
  unfoldable pub fill_envelope :
      String → String → EnvelopeEncryptionConfig → Result EnvelopeEncryptionConfig
  unfolding validate_provider
  fill_envelope mode secrets_mode e = do
    let ttl = option_or five_minutes e.cache_ttl
    let entries = option_or (pos 1000) e.cache_max_entries
    guard (secrets_mode == "sqlite") (
        errorf
          "server.secrets.envelopeEncryption is supported only when server.secrets.mode is sqlite"
          [])
    validate_provider mode e
    refuse (is_negative ttl)
        (errorf "server.secrets.envelopeEncryption.cacheTTL cannot be negative" [])
    refuse (is_negative entries)
        (errorf "server.secrets.envelopeEncryption.cacheMaxEntries cannot be negative" [])
    refuse (contains (keys e.encryption_context) "scia_credential_id") (
        errorf "server.secrets.envelopeEncryption.encryptionContext[%q] is reserved"
          (str "scia_credential_id" ∷ []))
    refuse (contains (keys e.encryption_context) "scia_secret_key") (
        errorf "server.secrets.envelopeEncryption.encryptionContext[%q] is reserved"
          (str "scia_secret_key" ∷ []))
    ok (record e { cache_ttl = some ttl; cache_max_entries = some entries })

  unfoldable pub validate_envelope :
      String → String → EnvelopeEncryptionConfig → Result EnvelopeEncryptionConfig
  unfolding fill_envelope
  validate_envelope mode secrets_mode e =
      if e.provider == "" then ok e else fill_envelope mode secrets_mode e

  unfoldable pub validate_external : SecretsConfig → Result (Unit {0})
  unfolding check_url header_value_from_env
  validate_external s = do
    let url = header_value_from_env getenv s.external.webhook.url
    refuse (url == "") (
        errorf
          "server.secrets.external.webhook.url is required when server.secrets.mode is external" [])
    check_url "server.secrets.external.webhook.url" url
    refuse (header_value_from_env getenv s.external.webhook.secret_key == "") (
        errorf
          "server.secrets.external.webhook.secretKey is required when server.secrets.mode is external"
          [])

  -- A URL that may be left empty.
  unfoldable pub check_optional_url : String → String → Result (Unit {0})
  unfolding check_url header_value_from_env
  check_optional_url field raw =
      if header_value_from_env getenv raw == ""
      then ok tt
      else check_url field (header_value_from_env getenv raw)

  -- The secret store, by its mode.
  unfoldable pub validate_secrets : ServerConfig → Result SecretsConfig
  unfolding validate_secrets_mode validate_envelope validate_kubernetes validate_external
  validate_secrets server = do
    s ← validate_secrets_mode server.secrets
    e ← validate_envelope server.mode s.mode s.envelope_encryption
    k ←
        if s.mode == "kubernetes"
        then validate_kubernetes server.users s.kubernetes
        else ok s.kubernetes
    if s.mode == "external" then validate_external s else ok tt
    ok (record s { envelope_encryption = e; kubernetes = k })

  -- Config.Validate up to the credentials.
  unfoldable pub validate_server : ServerConfig → Result ServerConfig
  unfolding validate_mode validate_secrets check_optional_url
  validate_server server = do
    s ← validate_mode server
    secrets ← validate_secrets s
    check_optional_url "server.backendProxy.url" s.backend_proxy.url
    check_optional_url "server.oauth.metadataUrl" s.oauth.metadata_url
    ok (record s { secrets = secrets })
