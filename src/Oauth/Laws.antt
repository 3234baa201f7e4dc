-- ===== src/Oauth/Laws.antt =====
-- internal/oauth/server.go: what holds of the states of logins, of users' tokens and of scopes.
pub mod State
pub mod Signed
pub mod Users
pub mod Start
pub mod Callback
pub mod Scopes
