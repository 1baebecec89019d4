-- ===== src/Client/Storage.antt =====
-- internal/client/storage/state.go: the local state. Each method runs under the store's mutex; it
-- is a function of the state here.
pub mod File
use voldepass.Prelude.{String, Bool, Option, List, [], ◌∷◌, ◌++◌, filter, not, ◌==◌, dec_true, ◌+◌}
use voldepass.GoMap.{GoMap, lookup, insert, delete, values}
use voldepass.Domain.{Bytes, Time, Int64, int64_zero, KdfParams, RecordDto}

-- currentFormatVersion
abbrev pub current_format_version : Int64
current_format_version = int64_zero + 1

pub record StoredRecord : Type 0 where
  pub dto : RecordDto
  pub open dto use *
  pub dirty : Bool
  pub dirty_at : Time

pub record PendingBatch : Type 0 where
  pub idempotency_key : String
  pub record_ids : List String

pub record State : Type 0 where
  pub version : Int64
  pub kdf_salt : Bytes
  pub kdf_params : KdfParams
  pub wrapped_data_key : Bytes
  pub auth_token : String
  pub refresh_token : String
  pub last_sync_version : Int64
  pub last_sync_at : Time
  pub records : GoMap StoredRecord
  pub pending_push : List PendingBatch

-- newEmptyState
unfoldable pub new_empty_state : State
new_empty_state = record {
  version = current_format_version;
  kdf_salt = [];
  kdf_params = record { time = 0; memory = 0; threads = 0; key_len = 0 };
  wrapped_data_key = [];
  auth_token = "";
  refresh_token = "";
  last_sync_version = int64_zero;
  last_sync_at = 0;
  records = [];
  pending_push = [];
}

-- SetProfile
unfoldable pub set_profile : Bytes → KdfParams → Bytes → State → State
set_profile kdf_salt kdf_params wrapped_data_key s = record s {
  kdf_salt = kdf_salt;
  kdf_params = kdf_params;
  wrapped_data_key = wrapped_data_key;
}

-- SetTokens
unfoldable pub set_tokens : String → String → State → State
set_tokens access_token refresh_token s = record s {
  auth_token = access_token;
  refresh_token = refresh_token;
}

-- Tokens
unfoldable pub tokens : State → String × String
tokens s = (s.auth_token, s.refresh_token)

-- GetRecord
unfoldable pub get_record : String → State → Option StoredRecord
get_record id s = lookup id s.records

-- PutRecord
unfoldable pub put_record : StoredRecord → State → State
put_record r s = record s { records = insert r.id r s.records }

-- DeleteRecord
unfoldable pub delete_record : String → State → State
delete_record id s = record s { records = delete id s.records }

-- ListRecords
unfoldable pub list_records : State → List StoredRecord
list_records s = values s.records

-- ListDirty
unfoldable pub list_dirty : State → List StoredRecord
list_dirty s = filter (λ r. dec_true r.dirty) (values s.records)

-- SetLastSyncVersion
unfoldable pub set_last_sync_version : Int64 → State → State
set_last_sync_version v s = record s { last_sync_version = v }

-- SetLastSyncAt
unfoldable pub set_last_sync_at : Time → State → State
set_last_sync_at t s = record s { last_sync_at = t }

-- AddPendingPush
unfoldable pub add_pending_push : PendingBatch → State → State
add_pending_push b s = record s { pending_push = s.pending_push ++ b ∷ [] }

abbrev pub is_other_batch : String → PendingBatch → Bool
is_other_batch idempotency_key b = not (b.idempotency_key == idempotency_key)

-- ClearPendingPush
unfoldable pub clear_pending_push : String → State → State
clear_pending_push idempotency_key s = record s {
  pending_push = filter (λ b. dec_true (is_other_batch idempotency_key b)) s.pending_push;
}
