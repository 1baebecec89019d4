-- ===== src/Server/Auth.antt =====
-- internal/server/auth: one-time challenges, rotating refresh tokens and access tokens.
pub mod Primitives
pub mod Challenge
pub mod Refresh
pub mod Jwt
