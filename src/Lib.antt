-- ===== src/Lib.antt =====
-- Voldepass is a password manager: a server that stores records which it cannot read, and a client
-- that encrypts them, works offline on a local copy, and synchronises it with the server.
--
-- A client registers a login with a verifier that is derived from the master password, and logs in by
-- answering a challenge (internal/server/service/auth.go, internal/server/auth). It gets an access
-- token and a refresh token, which is exchanged for a new one at each use. Records have versions: a
-- write names the version it is based on, and the server refuses it if the record has moved on
-- (internal/server/storage/inmem, internal/server/service/vault.go and sync.go). The client
-- (internal/client/service/syncer.go) pulls what changed since its cursor, merges it with its own
-- edits, and pushes those in batches under idempotency keys, so that a batch can be sent again.
--
-- The files, and the code that each is about:
--   Prelude        names, tests and lists that the other files share
--   GoMap          Go's maps with string keys; the laws are in GoMap.Laws
--   Domain         internal/domain: Record, RecordDto, User, Profile, the errors
--   Flags          how package flag goes through the arguments
--   Server.Config, Client.Config   internal/server/config and internal/client/config
--   Server.Ports   internal/server/service/ports.go: the interfaces of the repositories
--   Server.Inmem   internal/server/storage/inmem: Records, Idempotency, Tokens, Attempts, Users
--   Server.Postgres   internal/server/storage/postgres: Records, Tokens, Idempotency, Users
--   Server.Auth    internal/server/auth: Challenge, Refresh and Jwt
--   Server.Service internal/server/service: Vault and Sync over the ports, Auth over the stores
--   Server.Rest    internal/server/rest: the checks, and the handlers of records, of the synchronisation
--                  and of accounts
--   Client.Storage internal/client/storage/state.go, and file.go in Client.Storage.File
--   Client.Syncer  internal/client/service/syncer.go: Local is what works on the local state, Run is
--                  what talks to the server; Contract is what Sync relies on in a server
--   Client.Vault   internal/client/service/vault_manager.go
--   Client.AuthFlow   internal/client/service/authflow.go: registration and login
--   Client.Session internal/client/service/session.go: the end of a session
--   Client.Crypto  internal/client/crypto
--   Client.Transport  internal/client/transport: statuses, the retry after a refresh, and the pinning of
--                  a certificate
--   Client.Cli     internal/client/cli: Commands is what the commands on records do, Accounts those on
--                  the account, Transfer the rest, Flags the flags of a record, Otp the codes, also
--                  internal/client/service/otp.go
--   Client.Tui     internal/client/tui/model.go and internal/domain/payload.go: Input is what comes
--                  from libraries, Form the form of a record, Model the state, Editing and Update what
--                  a message does
--   System.Link    the server's service as the server of Client.Syncer
--   Tests          runs of all this on concrete inputs, below Server, Client and System
--
-- A method of a Go type is a function from its arguments and the state to its result and the new
-- state, under the method's name in lower case with underscores. A pair (value, error) is a Result.
-- Each method runs under its object's mutex, so it is one step here; Call and run in
-- Server.Inmem.Records are the histories of such steps. Time, drawn ids and random bytes are
-- arguments. An int64 is its value plus 2 ^ 63, a natural number below 2 ^ 64, so that the counter of
-- versions wraps as it does in Go; HasRoom says that it does not reach that point. Loops are
-- structural recursion; chunkRecords runs on fuel, the number of records, which is enough since each
-- chunk takes one record at least. The rounds of Sync are the bound that the code itself has.
--
-- The terminal interface is a function of a message and the state; a panic is `none` there: of a slice
-- that is indexed out of range, and of the vault, for a code with a negative number of digits. The vault and the input lines are its parameters. A synchronisation that runs in the
-- background changes the store between two messages.
--
-- Cryptography, JSON, the source of randomness, Unicode's classes and the signing of tokens are
-- parameters, with the laws of them that are used as fields of Random, Gcm and Json.
--
-- The operating system is a parameter of the write of the client's file: which of its calls fails, and
-- what a write that fails leaves. The disk is passed after each call, for a crash there. A rename puts
-- the whole file in place at once.
--
-- The tables of the Postgres repositories are modelled by what their statements do to them; a statement
-- is one step, but for the INSERT of a record, which draws its version in a step before. That a
-- statement fails is an argument.
--
-- Not modelled: the pool of connections and the run of the migrations; the routes of the server; the
-- sending of requests; the screens that the terminal interface draws; the declaration of commands and
-- flags, and the text that commands print; start-up; logging.
pub mod Prelude
pub mod GoMap
pub mod Domain
pub mod Flags
pub mod Server
pub mod Client
pub mod System
