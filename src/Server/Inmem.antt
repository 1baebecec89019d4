-- ===== src/Server/Inmem.antt =====
-- internal/server/storage/inmem: the in-memory repositories. Each method runs under its mutex, so a
-- history of the store is a sequence of calls. The clock's reading is an argument of a call.
pub mod Records
pub mod Idempotency
pub mod Tokens
pub mod Attempts
pub mod Users
