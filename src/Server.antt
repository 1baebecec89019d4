-- ===== src/Server.antt =====
-- internal/server: the services, over their ports, and the stores behind them.
pub mod Config
pub mod Ports
pub mod Inmem
pub mod Postgres
pub mod Auth
pub mod Service
pub mod Rest
pub mod Tests
