-- ===== src/Client/Cli.antt =====
-- internal/client/cli: what the commands do, over the session, the vault and the file. A command takes
-- the machine that it runs on, and gives what it prints, its result and the machine after it.
pub mod Flags
pub mod Commands
pub mod Accounts
pub mod Transfer
pub mod Otp
pub mod Kept
pub mod Offline
pub mod Renewed
use voldepass.Prelude.{ℕ, suc, String, Option, none, some}
use voldepass.Domain.{
  Bytes, Time, DataType, Int64, Result, ok, err, Error, ◌>>=◌, SyncPullResponse, SyncPushRequest,
  SyncPushResponse,
}
use voldepass.Client.Storage
use voldepass.Client.Storage.File.{FileEnvelope, Disk, System, load}
use voldepass.Client.Json.{Json}
use voldepass.Client.Crypto.Random.{Random}
use voldepass.Client.Crypto.Aes.{Gcm}
use voldepass.Client.Crypto.Bundle.{ExportBundle, ExportBundleInner}
use voldepass.Client.AuthFlow
use voldepass.Client.AuthFlow.{Kdf, AuthTransport}
use voldepass.Client.Session
use voldepass.Client.Session.{Syncer}
use voldepass.Client.Syncer.Run.{Transport}
use voldepass.Client.Tui.Form.{Payload}

-- What the client runs on: the libraries, and the server as transport.Client shows it. `new` is
-- transport.New: a client without tokens. `json t` is encoding/json for the payload type that t names.
pub record Setup : Type 1 where
  pub random : Random
  pub gcm : Gcm
  pub kdf : Kdf
  pub state_json : Json Storage.State
  pub envelope_json : Json FileEnvelope
  pub inner_json : Json ExportBundleInner
  pub bundle_json : Json ExportBundle
  pub json : DataType → Json Payload
  pub auth : AuthTransport
  pub new : auth.Server → auth.Server
  pub pull : Int64 → auth.Server → Result SyncPullResponse × auth.Server
  pub push : String → SyncPushRequest → auth.Server → Result SyncPushResponse × auth.Server
  pub uuid : ℕ → String

-- One run of the program: how the calls of the system go, whether the file can be read if there is
-- one, and the time.
pub record Env : Type 0 where
  pub system : System
  pub read_failure : Option Error
  pub now : Time

-- os.ReadFile
unfoldable pub read_file : Option Error → Option Bytes → Result (Option Bytes)
read_file failure none = ok none
read_file none (some raw) = ok (some raw)
read_file (some e) (some raw) = err e

-- defaultMaxIterations, defaultChunkSize
abbrev pub default_syncer : Time → Syncer
default_syncer now = record { max_iterations = 5; chunk_size = 100; now = now }

module _ (c : Setup) where
  abbrev pub transport : Transport
  transport = record { Server = c.auth.Server; pull = c.pull; push = c.push }

  -- bundle: the session, with what the vault and the synchronisation work on.
  abbrev pub Bundle : Type 0
  Bundle = Session.Session c.random c.gcm c.state_json c.envelope_json transport c.uuid

  pub record Machine : Type 0 where
    pub server : c.auth.Server
    pub disk : Disk
    pub source : c.random.State
    pub uuids : ℕ

  -- The machine that a session leaves when the program ends.
  abbrev pub leave : Bundle → Machine
  leave b = record { server = b.world.0; disk = b.disk; source = b.source; uuids = b.world.1.uuids }

  abbrev pub bundle : Storage.State → Bytes → Machine → Bundle
  bundle store data_key m = record {
    world = (m.server, record { store = store; uuids = m.uuids });
    data_key = data_key;
    disk = m.disk;
    source = m.source;
  }

  -- openSession, from the login on
  unfoldable pub load_session :
      Env → Result Bytes × c.auth.Server × Storage.State → Machine → Result Bundle × Machine
  unfolding read_file
  load_session env (err e, server, store) m = (err e, record m { server = server })
  load_session env (ok data_key, server, store) m =
      let m' : Machine = record m { server = server } in
      (
        (load c.random c.gcm c.state_json c.envelope_json data_key
              (read_file env.read_failure m.disk.target) store)
            >>= (λ loaded. ok (bundle loaded data_key m')),
        m',
      )

  -- openSession
  unfoldable pub open_session : Env → String → Bytes → Machine → Result Bundle × Machine
  unfolding load_session
  open_session env login password m =
      let (logged, (server, store)) =
        AuthFlow.login c.random c.gcm c.kdf c.auth login password
          (c.new m.server, Storage.new_empty_state) in
      load_session env (logged, server, store) m

  -- openNewSession. Register draws the salt, the data key and the nonce of its wrapping.
  unfoldable pub open_new_session : String → Bytes → Machine → Result Bundle × Machine
  open_new_session login password m =
      let world : AuthFlow.World c.random c.gcm c.kdf c.auth =
        (c.new m.server, Storage.new_empty_state) in
      let made = AuthFlow.make_keys c.random c.gcm c.kdf c.auth password m.source in
      let registered =
        AuthFlow.register c.random c.gcm c.kdf c.auth login password m.source world in
      let m1 : Machine = record m { server = registered.1.0; source = made.1 } in
      elim registered.0 [
        | err e ↦ (err e, m1)
        | ok _ ↦
            let (logged, (server, store)) =
              AuthFlow.login c.random c.gcm c.kdf c.auth login password registered.1 in
            let m2 : Machine = record m1 { server = server } in
            elim logged [ err e ↦ (err e, m2) | ok data_key ↦ (ok (bundle store data_key m2), m2) ]
      ]

  -- Close, as every command but logout calls it.
  unfoldable pub close : Env → Bundle → Result (Unit {0}) × Machine
  close env b =
      let (closed, passed, b') =
        Session.close c.random c.gcm c.state_json c.envelope_json transport c.uuid
          (some (default_syncer env.now)) env.system b in
      (closed, leave b')
