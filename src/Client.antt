-- ===== src/Client.antt =====
-- internal/client: the local store, its cryptography, the vault over it, and the synchronisation.
pub mod Config
pub mod Json
pub mod Storage
pub mod Crypto
pub mod Syncer
pub mod Vault
pub mod Transport
pub mod AuthFlow
pub mod Session
pub mod Cli
pub mod Tui
pub mod Tests
