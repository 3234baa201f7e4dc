-- ===== src/Tests.antt =====
-- Runs of the definitions and of the theorems on concrete input.
pub mod Fixture
mod Codec
mod Config
mod Policy
mod Proxy
mod Secrets
mod Kubernetes
mod Approval
mod Services
mod Auth
mod Oauth
mod Callback
