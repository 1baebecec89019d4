-- ===== src/Client/Crypto.antt =====
-- internal/client/crypto.
pub mod Random
pub mod Aes
pub mod Bundle
pub mod RoundTrip
pub mod Strength
pub mod Generator
pub mod Totp
