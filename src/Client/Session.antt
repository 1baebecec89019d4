-- ===== src/Client/Session.antt =====
-- internal/client/service/session.go: a session of the client, which ends with a last synchronisation and
-- with writing the file. What zeroBytes overwrites is the session's own key.
pub mod Closing
use voldepass.Prelude.{ℕ, String, Option, none, some, List, map}
use voldepass.Domain.{Bytes, Time, KdfParams, Result, ok, err}
use voldepass.Client.Storage
use voldepass.Client.Storage.File.{FileEnvelope, Disk, System, Written, save}
use voldepass.Client.Json.{Json}
use voldepass.Client.Crypto.Random.{Random}
use voldepass.Client.Crypto.Aes.{Gcm}
use voldepass.Client.Syncer.Local.{Local}
use voldepass.Client.Syncer.Run.{Transport, World, sync}

-- How the last synchronisation runs: the bounds of the Syncer, and the time.
pub record Syncer : Type 0 where
  pub max_iterations : ℕ
  pub chunk_size : ℕ
  pub now : Time

-- zeroBytes
unfoldable pub zero_bytes : Bytes → Bytes
zero_bytes b = map (λ x. 0) b

module _ (random : Random) (gcm : Gcm) (state_json : Json Storage.State)
    (envelope_json : Json FileEnvelope) (transport : Transport) (uuid : ℕ → String) where
  -- Session, with the server, the disk and the source of randomness.
  pub record Session : Type 0 where
    pub world : World transport uuid
    pub data_key : Bytes
    pub disk : Disk
    pub source : random.State

  -- Profile
  unfoldable pub profile : Session → Bytes × KdfParams × Bytes
  profile s =
      let store = s.world.1.store in (store.kdf_salt, store.kdf_params, store.wrapped_data_key)

  -- ClearTokens
  unfoldable pub clear_tokens : Session → Session
  clear_tokens s =
      let (server, l) = s.world in
      record s { world = (server, record l { store = Storage.set_tokens "" "" l.store }) }

  -- The write of the file, after which the key is zeroed.
  unfoldable pub finish : System → Session → Written × Session
  unfolding zero_bytes
  finish system s =
      let (w, source) =
        save random gcm state_json envelope_json system s.data_key s.world.1.store s.disk
          s.source in
      (w, record s { disk = w.disk; source = source; data_key = zero_bytes s.data_key })

  -- CloseWithoutSync, with the disks that it passes.
  unfoldable pub close_without_sync : System → Session → Result (Unit {0}) × List Disk × Session
  unfolding finish
  close_without_sync system s = let (w, s') = finish system s in (w.result, w.passed, s')

  -- Close, with the disks that it passes.
  unfoldable pub close : Option Syncer → System → Session → Result (Unit {0}) × List Disk × Session
  unfolding close_without_sync finish
  close none system s = close_without_sync system s
  close (some y) system s =
      let (synced, world) = sync transport uuid y.max_iterations y.chunk_size y.now s.world in
      let (w, s') = finish system (record s { world = world }) in
      elim synced [
        | ok conflicts ↦ (w.result, w.passed, s')
        | err e ↦ elim w.result [
          | ok _ ↦ (err e, w.passed, s')
          | err save_error ↦ (err save_error, w.passed, s')
        ]
      ]
