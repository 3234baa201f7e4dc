-- ===== src/Secrets.antt =====
-- internal/secrets: the stores of secrets, and the references to them.
pub mod Store
pub mod Ref
pub mod RefLaws
pub mod Kubernetes
pub mod Cache
