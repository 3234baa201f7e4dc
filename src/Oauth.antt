-- ===== src/Oauth.antt =====
-- internal/oauth: the server through which users connect their accounts.
pub mod Types
pub mod Clients
pub mod State
pub mod Users
mod Slugs
pub mod Scopes
pub mod Start
pub mod Exchange
pub mod Callback
pub mod Laws
