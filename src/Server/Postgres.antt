-- ===== src/Server/Postgres.antt =====
-- internal/server/storage/postgres: what the statements of the repositories do to their tables, by the
-- documented meaning of SQL. A statement is one step, and a statement that fails changes nothing.
-- That it fails, for whatever reason that the database has, is an argument. A key or a time is in
-- the form in which its column keeps it.
pub mod Records
pub mod Tokens
pub mod Idempotency
pub mod Users
