-- ===== src/Proxy.antt =====
-- internal/proxy/server.go: the proxy's decisions, its handling of a forwarded request, and the admin
-- interface.
pub mod Targets
pub mod TargetLaws
pub mod Services
pub mod Forward
pub mod ForwardLaws
pub mod Tokens
pub mod Admin
pub mod AdminLaws
