-- ===== src/Server/Service/Sync.antt =====
-- internal/server/service/sync.go, over any record repository and idempotency store. A request runs
-- at one reading of the clock. `Codec` is encoding/json on push results.
pub mod Retry
pub mod Batch
use voldepass.Prelude.{ℕ, ◌*◌, String, ◌≡◌, List, [], ◌∷◌, map}
use voldepass.Domain.{
  Bytes, Time, Int64, int64_zero, Record, RecordDto, Result, ok, err, Error, not_found, ◌>>=◌,
  SyncPullResponse, SyncPushRequest, SyncPushResponse, PushResult, applied, conflicted,
}
use voldepass.Server.Ports.{RecordRepository, IdempotencyStore, Upserted, saved, stale, failed}

pub record Codec : Type 0 where
  pub marshal : SyncPushResponse → Result Bytes
  pub unmarshal : Bytes → Result SyncPushResponse

-- idempotencyTTL: 24 hours.
abbrev pub idempotency_ttl : Time
idempotency_ttl = 24 * 3600 * 1000000000

-- recordToDTO
unfoldable pub record_to_dto : Record → RecordDto
record_to_dto r = record {
  id = r.id;
  data_type = r.data_type;
  encrypted_meta = r.encrypted_meta;
  meta_nonce = r.meta_nonce;
  ciphertext = r.ciphertext;
  nonce = r.nonce;
  base_version = int64_zero;
  version = r.version;
  updated_at = r.updated_at;
  is_deleted = r.deleted;
}

-- dtoToRecord
unfoldable pub dto_to_record : RecordDto → String → Record
dto_to_record dto owner_id = record {
  id = dto.id;
  owner_id = owner_id;
  data_type = dto.data_type;
  encrypted_meta = dto.encrypted_meta;
  meta_nonce = dto.meta_nonce;
  ciphertext = dto.ciphertext;
  nonce = dto.nonce;
  version = int64_zero;
  updated_at = 0;
  deleted = dto.is_deleted;
}

module _ (records : RecordRepository) where
  -- Pull
  unfoldable pub pull : String → Int64 → records.State → Result SyncPullResponse
  unfolding record_to_dto
  pull owner_id since_version s = do
    recs ← records.list_since owner_id since_version s
    ok (record { records = map record_to_dto recs })

  abbrev pub then_results :
      PushResult
      → Result (List PushResult) × records.State
      → Result (List PushResult) × records.State
  then_results r (ok rs, s) = (ok (r ∷ rs), s)
  then_results r (err e, s) = (err e, s)

  -- The loop of Push. An error stops it and keeps what it has already written.
  unfoldable pub push_records :
      Time → String → List RecordDto → records.State → Result (List PushResult) × records.State
  unfolding record_to_dto dto_to_record
  push_records now owner_id [] s = (ok [], s)
  push_records now owner_id (dto ∷ dtos) s =
      let upserted = records.upsert now (dto_to_record dto owner_id) dto.base_version s in
      let rest = push_records now owner_id dtos upserted.1 in
      elim upserted.0 [
        | saved r ↦
            then_results (record { id = dto.id; status = applied; server_record = record_to_dto r })
              rest
        | stale r ↦
            then_results
              (record { id = dto.id; status = conflicted; server_record = record_to_dto r }) rest
        | failed e ↦ (err e, upserted.1)
      ]

module _ (records : RecordRepository) (idempotency : IdempotencyStore) (codec : Codec) where
  -- The states of the two stores.
  abbrev pub State : Type 0
  State = records.State × idempotency.State

  -- The end of Push: the results are stored under the key, so that a retry gets them.
  unfoldable pub finish :
      Time → String → String → Result (List PushResult) → State → Result SyncPushResponse × State
  finish now owner_id key (err e) s = (err e, s)
  finish now owner_id key (ok results) (v, i) =
      let resp : SyncPushResponse = record { results = results } in
      elim (codec.marshal resp) [
        | err e ↦ (err e, (v, i))
        | ok encoded ↦
            let (r, i') = idempotency.save now owner_id key encoded idempotency_ttl i in
            elim r [ err e ↦ (err e, (v, i')) | ok _ ↦ (ok resp, (v, i')) ]
      ]

  -- Push
  unfoldable pub push :
      Time → String → String → SyncPushRequest → State → Result SyncPushResponse × State
  unfolding finish
  push now owner_id key req (v, i) =
      let (cached, i') = idempotency.get now owner_id key i in
      elim cached [
        | ok encoded ↦ (codec.unmarshal encoded, (v, i'))
        | err not_found ↦
            let (results, v') = push_records records now owner_id req.records v in
            finish now owner_id key results (v', i')
        | err e ↦ (err e, (v, i'))
      ]
