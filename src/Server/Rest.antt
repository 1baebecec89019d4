-- ===== src/Server/Rest.antt =====
-- internal/server/rest: errors.go, the checks of middleware.go, and the handlers of
-- vault_handlers.go and sync_handlers.go over any repository. What net/http, encoding/json and
-- uuid.Parse make of a request is given: the user that AuthMiddleware found, and a body that is
-- decoded, malformed or over its limit.
pub mod Valid
pub mod Accounts
pub mod Reading
use voldepass.Prelude.{
  ℕ, String, Bool, true, false, ◌==◌, not, Option, none, some, List, [], ◌∷◌, map, ltb,
  if◌then◌else◌,
}
use voldepass.Domain.{
  Bytes, Time, Int64, int64_zero, DataType, valid, Record, RecordDto, SyncPushRequest,
  SyncPushResponse, SyncPullResponse, Result, ok, err, Error, not_found, conflict, unauthorized,
  already_exists, rate_limited, invalid_argument, payload_too_large, internal, ◌>>=◌,
}
use voldepass.Server.Ports.{RecordRepository, IdempotencyStore}
use voldepass.Server.Service.Vault
use voldepass.Server.Service.Sync
use voldepass.Server.Service.Sync.{Codec, record_to_dto}

-- writeError: the status of an error.
unfoldable pub status_of : Error → ℕ
status_of not_found = 404
status_of conflict = 409
status_of unauthorized = 401
status_of already_exists = 409
status_of rate_limited = 429
status_of invalid_argument = 400
status_of payload_too_large = 413
status_of internal = 500

-- What a handler writes: a status with a body, or the status of an error.
pub data Reply {ℓ} (A : Type ℓ) : Type ℓ where
  replied : ℕ → A → Reply A
  failed : ℕ → Reply A

abbrev pub respond {ℓ} : {A : Type ℓ} → ℕ → Result A → Reply A
respond status (ok a) = replied status a
respond status (err e) = failed (status_of e)

-- What json.Decoder makes of a body that http.MaxBytesReader limits.
pub data Body {ℓ} (A : Type ℓ) : Type ℓ where
  decoded : A → Body A
  malformed over_limit : Body A

-- writeDecodeError, for a body that is not decoded
unfoldable pub decode_error {ℓ} : {A : Type ℓ} → Body A → Result A
decode_error (decoded a) = ok a
decode_error malformed = err invalid_argument
decode_error over_limit = err payload_too_large

-- userIDFromContext
unfoldable pub user_id_from_context : Option String → Result String
user_id_from_context none = err unauthorized
user_id_from_context (some user_id) = if user_id == "" then err unauthorized else ok user_id

-- recordRequest
pub record RecordRequest : Type 0 where
  pub data_type : DataType
  pub encrypted_meta : Bytes
  pub meta_nonce : Bytes
  pub ciphertext : Bytes
  pub nonce : Bytes
  pub base_version : Int64

abbrev pub record_of : String → RecordRequest → Record
record_of id req = record {
  id = id;
  owner_id = "";
  data_type = req.data_type;
  encrypted_meta = req.encrypted_meta;
  meta_nonce = req.meta_nonce;
  ciphertext = req.ciphertext;
  nonce = req.nonce;
  version = int64_zero;
  updated_at = 0;
  deleted = false;
}

-- !t.Valid()
unfoldable pub check_type : DataType → Result (Unit {0})
check_type t = if valid t then ok tt else err invalid_argument

-- maxShortDBStringLength
abbrev pub max_short_db_string_length : ℕ
max_short_db_string_length = 200

-- `is_uuid` is what uuid.Parse accepts, and `byte_length` is len on a string.
module _ (is_uuid : String → Bool) (byte_length : String → ℕ) where
  -- validateRecordID
  unfoldable pub validate_record_id : String → Result (Unit {0})
  validate_record_id id = if is_uuid id then ok tt else err invalid_argument

  -- validateShortString
  unfoldable pub validate_short_string : String → Result (Unit {0})
  validate_short_string value =
      if ltb max_short_db_string_length (byte_length value) then err invalid_argument else ok tt

  -- The loop of SyncHandlers.Push over the records.
  unfoldable pub check_records : List RecordDto → Result (Unit {0})
  unfolding validate_record_id check_type
  check_records [] = ok tt
  check_records (rec ∷ recs) =
      let rest = check_records recs in
      validate_record_id rec.id >>= (λ _. check_type rec.data_type >>= (λ _. rest))

  -- The checks of VaultHandlers.Create, in their order.
  unfoldable pub check_create : Option String → Body RecordRequest → Result (String × RecordRequest)
  unfolding user_id_from_context decode_error check_type
  check_create user body = do
    owner_id ← user_id_from_context user
    req ← decode_error body
    _ ← check_type req.data_type
    ok (owner_id, req)

  -- The checks of VaultHandlers.Update, in their order.
  unfoldable pub check_update :
      Option String → String → Body RecordRequest → Result (String × RecordRequest)
  unfolding user_id_from_context validate_record_id decode_error check_type
  check_update user id body = do
    owner_id ← user_id_from_context user
    _ ← validate_record_id id
    req ← decode_error body
    _ ← check_type req.data_type
    ok (owner_id, req)

  -- The checks of VaultHandlers.Get and Delete, in their order.
  unfoldable pub check_id : Option String → String → Result String
  unfolding user_id_from_context validate_record_id
  check_id user id = do owner_id ← user_id_from_context user; _ ← validate_record_id id; ok owner_id

  -- The checks of SyncHandlers.Push, in their order.
  unfoldable pub check_key : String → Result (Unit {0})
  check_key key = if key == "" then err invalid_argument else ok tt

  unfoldable pub check_push :
      Option String → String → Body SyncPushRequest → Result (String × SyncPushRequest)
  unfolding user_id_from_context check_key validate_short_string decode_error check_records
  check_push user key body = do
    owner_id ← user_id_from_context user
    _ ← check_key key
    _ ← validate_short_string key
    req ← decode_error body
    _ ← check_records req.records
    ok (owner_id, req)

  module _ (records : RecordRepository) where
    open records use {State}

    -- VaultHandlers.Create
    unfoldable pub create :
        Time → String → Option String → Body RecordRequest → State → Reply RecordDto × State
    unfolding check_create
    create now new_id user body s = elim (check_create user body) [
      | err e ↦ (failed (status_of e), s)
      | ok (owner_id, req) ↦
          let (r, s') = Vault.create records now new_id owner_id (record_of "" req) s in
          (respond 201 (r >>= (λ rec. ok (record_to_dto rec))), s')
    ]

    -- VaultHandlers.Get
    unfoldable pub get : Option String → String → State → Reply RecordDto
    unfolding check_id
    get user id s = respond 200 (
        check_id user id
        >>= (λ owner_id. Vault.get records owner_id id s >>= (λ rec. ok (record_to_dto rec))))

    -- VaultHandlers.Update
    unfoldable pub update :
        Time → Option String → String → Body RecordRequest → State → Reply RecordDto × State
    unfolding check_update
    update now user id body s = elim (check_update user id body) [
      | err e ↦ (failed (status_of e), s)
      | ok (owner_id, req) ↦
          let (r, s') = Vault.update records now owner_id (record_of id req) req.base_version s in
          (respond 200 (r >>= (λ rec. ok (record_to_dto rec))), s')
    ]

    -- VaultHandlers.Delete
    unfoldable pub delete : Time → Option String → String → State → Reply (Unit {0}) × State
    unfolding check_id
    delete now user id s = elim (check_id user id) [
      | err e ↦ (failed (status_of e), s)
      | ok owner_id ↦ let (r, s') = Vault.delete records now owner_id id s in (respond 204 r, s')
    ]

  module _ (records : RecordRepository) (idempotency : IdempotencyStore) (codec : Codec) where
    -- SyncHandlers.Push
    unfoldable pub push :
        Time
        → Option String
        → String
        → Body SyncPushRequest
        → Sync.State records idempotency codec
        → Reply SyncPushResponse × Sync.State records idempotency codec
    unfolding check_push
    push now user key body s = elim (check_push user key body) [
      | err e ↦ (failed (status_of e), s)
      | ok (owner_id, req) ↦
          let (r, s') = Sync.push records idempotency codec now owner_id key req s in
          (respond 200 r, s')
    ]
