-- ===== src/Client/Vault/Stale.antt =====
-- An edit of a record whose local version won a conflict.
use voldepass.Prelude.{ℕ, String, ◌≡◌, ◌≢◌, refl, ◌∙◌, true, false, some, arith, eqb_iff}
use voldepass.GoMap.{lookup}
use voldepass.Domain.{Bytes, Time, Record, RecordDto, ok}
use voldepass.Client.Storage.{StoredRecord}
use voldepass.Client.Json.{Json}
use voldepass.Client.Crypto.Random.{Random}
use voldepass.Client.Crypto.Aes.{Gcm}
use voldepass.Client.Syncer.Local.{Local, merge, rebased}
use voldepass.Client.Syncer.Merge.{IsValid}
use voldepass.Client.Syncer.Winner.{server_wins, merge-winner}
use voldepass.Client.Vault.{update}
use voldepass.Client.Vault.RoundTrip.{get-update}
use voldepass.Server.Ports.{stale}
use voldepass.Server.Inmem.Records

-- Update forgets the base that a conflict has set: in a valid state, if a local edit won against
-- what the server sent, and the record is edited again before it is pushed, then the new edit is
-- based on the version before the conflict, and the server, if it still holds a record of the
-- version that it sent, which is not the local one, refuses it.
pub update-stale :
    (random : Random) (gcm : Gcm) {Payload : Type 0} (json : Json Payload) (data_key : Bytes)
    (uuid : ℕ → String) (now : Time) (incoming : RecordDto) (l : Local) (r : StoredRecord)
    (meta : Bytes) (payload : Payload) (s : random.State) (dto : RecordDto) (later : Time)
    (repo : Records.Repository) (x rec : Record)
    → IsValid uuid l
    → lookup incoming.id l.store.records ≡ some r
    → r.dirty ≡ true
    → server_wins r incoming ≡ false
    → (update random gcm json data_key now incoming.id meta payload s
        (merge uuid now incoming l).store).0
      ≡ ok dto
    → lookup incoming.id repo.records ≡ some x
    → x.version ≡ incoming.version
    → r.version ≢ incoming.version
    → rec.id ≡ incoming.id
    → Records.upsert later rec dto.base_version repo ≡ (stale x, repo)
unfolding Records.upsert
update-stale random gcm json data_key uuid now incoming l r meta payload s dto later repo x rec v
      found dirty won updated held version moved id =
    let own = v.keyed incoming.id r found in
    let kept : lookup incoming.id (merge uuid now incoming l).store.records
        ≡ some (rebased r incoming) =
      merge-winner uuid now incoming l v ∙ (rw (found, dirty, won) refl) in
    let (_, based) =
      get-update random gcm json data_key now incoming.id meta payload s _ (rebased r incoming) dto
        kept own updated in
    let held_too : lookup rec.id repo.records ≡ some x = rw id held in
    ground (arith, held_too, eqb_iff x.version dto.base_version)
