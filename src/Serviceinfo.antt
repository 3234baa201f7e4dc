-- ===== src/Serviceinfo.antt =====
-- internal/serviceinfo/serviceinfo.go: the metadata of generic services, kept in a secret store.
pub mod Hosts
pub mod Normalize
pub mod Index
pub mod Fetch
pub mod Laws
pub mod IndexLaws
