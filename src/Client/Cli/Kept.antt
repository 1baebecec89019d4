-- ===== src/Client/Cli/Kept.antt =====
-- What the commands rely on: a synchronisation without a server, a write that no call fails, and a read.
use voldepass.Prelude.{
  ℕ, suc, ◌≡◌, refl, ap, ◌∙◌, String, true, false, Option, none, some, List, [], inl, inr,
  Option-cases, arith,
}
use voldepass.GoMap.{lookup}
use voldepass.Domain.{Bytes, Time, RecordDto, Result, ok, err, Error, Result-cases}
use voldepass.Client.Storage
use voldepass.Client.Storage.{StoredRecord}
use voldepass.Client.Storage.File.{
  FileEnvelope, Disk, Call, create_temp, write_temp, sync_temp, close_temp, rename_temp, System,
  finish_write, atomic_write_file, seal_state, save,
}
use voldepass.Client.Json.{Json}
use voldepass.Client.Crypto.Random.{Random}
use voldepass.Client.Crypto.Aes.{Gcm, decrypt}
use voldepass.Client.Syncer.Local.{Local}
use voldepass.Client.Syncer.Run.{
  Transport, World, pull, replay_pending, replay_batches, rounds, sync,
}
use voldepass.Client.Vault

module _ (transport : Transport) (uuid : ℕ → String) where
  replay_idle :
      (server : transport.Server) (l : Local)
      → l.store.pending_push ≡ []
      → replay_pending transport uuid (server, l) ≡ (ok tt, (server, l))
  unfolding replay_pending replay_batches
  replay_idle server l idle = ap (λ b. replay_batches transport uuid b (server, l)) idle

  rounds-offline :
      (n chunk_size : ℕ) (now : Time) (server : transport.Server) (l : Local) (e : Error)
      → (transport.pull l.store.last_sync_version server).0 ≡ err e
      → rounds transport uuid (suc n) chunk_size now (server, l)
        ≡ (err e, ((transport.pull l.store.last_sync_version server).1, l))
  unfolding rounds pull
  rounds-offline n chunk_size now server l e down =
      let stopped : pull transport uuid now (server, l)
          ≡ (err e, ((transport.pull l.store.last_sync_version server).1, l)) =
        rw (pull, down) refl in
      rw (rounds, stopped)
        (ap (λ (p : Result (Unit {0}) × World transport uuid). (err e, p.1)) stopped)

  -- Without a server and without batches to be sent again, a synchronisation changes nothing here.
  pub sync-offline :
      (n chunk_size : ℕ) (now : Time) (server : transport.Server) (l : Local) (e : Error)
      → l.store.pending_push ≡ []
      → (transport.pull l.store.last_sync_version server).0 ≡ err e
      → sync transport uuid (suc n) chunk_size now (server, l)
        ≡ (err e, ((transport.pull l.store.last_sync_version server).1, l))
  unfolding sync
  sync-offline n chunk_size now server l e idle down =
      let replayed = replay_idle server l idle in
      let done = ap (λ (p : Result (Unit {0}) × World transport uuid). p.0) replayed in
      let stopped =
        ap
          (λ (p : Result (Unit {0}) × World transport uuid).
            rounds transport uuid (suc n) chunk_size now p.1)
          replayed
        ∙ rounds-offline n chunk_size now server l e down in
      let failed = ap (λ (p : Result (List RecordDto) × World transport uuid). p.0) stopped in
      rw (sync, done, failed)
        (ap (λ (p : Result (List RecordDto) × World transport uuid). (err e, p.1)) stopped)

-- A write that none of its calls fails.
pub save-ok :
    (random : Random) (gcm : Gcm) (state_json : Json Storage.State)
    (envelope_json : Json FileEnvelope)
    → (system : System) (data_key raw : Bytes) (s : Storage.State) (d : Disk) (r : random.State)
    → ((call : Call) → system.failure call ≡ none)
    → (seal_state random gcm state_json envelope_json data_key s r).0 ≡ ok raw
    → let w = (save random gcm state_json envelope_json system data_key s d r).0 in
      (w.result ≡ ok tt) × (w.disk.target ≡ some raw)
unfolding save atomic_write_file finish_write
save-ok random gcm state_json envelope_json system data_key raw s d r calls h =
    rw
      (
        save,
        h,
        atomic_write_file,
        calls create_temp,
        calls write_temp,
        finish_write,
        calls sync_temp,
        calls close_temp,
        calls rename_temp,
      )
      (refl, refl)

-- A record that is read into a target is read without one.
pub get_untargeted :
    (random : Random) (gcm : Gcm) {Payload : Type 0} (json other : Json Payload) (data_key : Bytes)
    → (id : String) (store : Storage.State) (meta : Bytes) (dto : RecordDto)
      (payload : Option Payload)
    → Vault.get random gcm json data_key true id store ≡ ok (meta, dto, payload)
    → Vault.get random gcm other data_key false id store ≡ ok (meta, dto, none)
unfolding Vault.get Vault.open_meta Storage.get_record
get_untargeted random gcm json other data_key id store meta dto payload h =
    elim (Option-cases (lookup id store.records)) [
      | inl e ↦ absurd (ground arith)
      | inr (r, e) ↦ elim (Result-cases (decrypt random gcm data_key r.ciphertext r.nonce)) [
        | inr (x, f) ↦ absurd (ground arith)
        | inl (plaintext, f) ↦ elim (Result-cases (json.unmarshal plaintext)) [
          | inr (x, g) ↦ absurd (ground arith)
          | inl (p, g) ↦ elim (Result-cases (Vault.open_meta random gcm json data_key r.dto)) [
            | inr (x, k) ↦ absurd (ground arith)
            | inl (label, k) ↦
                let same : Vault.open_meta random gcm other data_key r.dto ≡ ok label = k in
                ground arith
          ]
        ]
      ]
    ]
