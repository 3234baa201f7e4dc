-- ===== src/Auth.antt =====
-- internal/auth: the injection of credentials into the requests that the proxy forwards.
pub mod Monad
pub mod Types
pub mod Clock
pub mod Secrets
pub mod Tokens
pub mod Providers
pub mod Generic
pub mod Inject
pub mod Services
pub mod Laws
