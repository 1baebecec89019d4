-- ===== src/Client/Session/Closing.antt =====
-- What the end of a session leaves in the file and of the key.
use voldepass.Prelude.{ℕ, ◌≡◌, refl, ◌⊎◌, inl, inr, Option, none, some, List, [], ◌∷◌, All, String}
use voldepass.Domain.{Bytes, Result, err, Error, Result-cases}
use voldepass.Client.Storage
use voldepass.Client.Storage.{current_format_version}
use voldepass.Client.Storage.File.{FileEnvelope, Disk, System}
use voldepass.Client.Storage.File.Crash.{Loads, save-load}
use voldepass.Client.Json.{Json}
use voldepass.Client.Crypto.Random.{Random}
use voldepass.Client.Crypto.Aes.{Gcm}
use voldepass.Client.Syncer.Run.{Transport, sync}
use voldepass.Client.Session.{Session, Syncer, zero_bytes, finish, close_without_sync, close}

zero_bytes-All : (b : Bytes) → All (λ (x : ℕ). x ≡ 0) (zero_bytes b)
unfolding zero_bytes
zero_bytes-All [] = tt
zero_bytes-All (x ∷ b) = (refl, zero_bytes-All b)

module _ (random : Random) (gcm : Gcm) (state_json : Json Storage.State)
    (envelope_json : Json FileEnvelope) (transport : Transport) (uuid : ℕ → String) where
  abbrev Ends : Type 0
  Ends = Result (Unit {0}) × List Disk × Session random gcm state_json envelope_json transport uuid

  -- The file opens as a state that a disk has.
  abbrev pub Opens : Bytes → Storage.State → Disk → Storage.State → Type 0
  Opens data_key empty d s = Loads random gcm state_json envelope_json data_key empty d.target s

  -- What the end leaves, for the key and the file that there were.
  abbrev pub IsClosed : Bytes → Storage.State → Storage.State → Ends → Type 0
  IsClosed data_key empty old (result, passed, s) =
      let new : Storage.State = record s.world.1.store { version = current_format_version } in
      All (λ (b : ℕ). b ≡ 0) s.data_key
      × All (λ (d : Disk). Opens data_key empty d old ⊎ Opens data_key empty d new) passed
      × (Opens data_key empty s.disk new
          ⊎ ((e : Error) × (result ≡ err e) × Opens data_key empty s.disk old))

  finish-IsClosed :
      (system : System) (s : Session random gcm state_json envelope_json transport uuid)
      → (old empty : Storage.State) (result : Result (Unit {0})) → Opens s.data_key empty s.disk old
      → let (w, s') = finish random gcm state_json envelope_json transport uuid system s in
        ((e : Error) → w.result ≡ err e → (x : Error) × (result ≡ err x))
        → IsClosed s.data_key empty old (result, w.passed, s')
  unfolding finish
  finish-IsClosed system s old empty result h fails =
      let (moments, ended) =
        save-load random gcm state_json envelope_json system s.data_key s.world.1.store old empty
          s.disk s.source h in
      (
        zero_bytes-All s.data_key,
        moments,
        elim ended [
          | inl (done, new) ↦ inl new
          | inr (e, failed, kept) ↦ let (x, reported) = fails e failed in inr (x, reported, kept)
        ],
      )

  -- If the file opens before Close, then after each call that Close makes for the write it opens under
  -- the same key: as the state that it had, or as the one that the last synchronisation left, however
  -- that ended. In the end it opens as the latter, or Close has returned an error and it opens as the
  -- former. The session's key is then zeros.
  pub close-IsClosed :
      (syncer : Option Syncer) (system : System)
      → (s : Session random gcm state_json envelope_json transport uuid) (old empty : Storage.State)
      → Opens s.data_key empty s.disk old
      → IsClosed s.data_key empty old
          (close random gcm state_json envelope_json transport uuid syncer system s)
  unfolding close close_without_sync
  close-IsClosed none system s old empty h = finish-IsClosed system s old empty _ h (λ e f. (e, f))
  close-IsClosed (some y) system s old empty h =
      let synced = sync transport uuid y.max_iterations y.chunk_size y.now s.world in
      let s1 : Session random gcm state_json envelope_json transport uuid = record s {
        world = synced.1;
      } in
      let w = (finish random gcm state_json envelope_json transport uuid system s1).0 in
      elim (Result-cases synced.0) [
        | inl (conflicts, f) ↦
            rw (close, f) (finish-IsClosed system s1 old empty _ h (λ e g. (e, g)))
        | inr (e, f) ↦ elim (Result-cases w.result) [
          | inl (u, g) ↦
              rw (close, f, g) (finish-IsClosed system s1 old empty (err e) h (λ x k. (e, refl)))
          | inr (x, g) ↦
              rw (close, f, g) (finish-IsClosed system s1 old empty (err x) h (λ x' k. (x, refl)))
        ]
      ]
