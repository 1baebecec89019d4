-- ===== src/Server/Service.antt =====
-- internal/server/service: the services over the repositories.
pub mod Vault
pub mod Sync
pub mod Auth
