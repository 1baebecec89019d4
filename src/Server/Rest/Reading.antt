-- ===== src/Server/Rest/Reading.antt =====
-- internal/server/rest: AuthMiddleware, CheckAPIVersion and parseSinceVersion of middleware.go, and the
-- handlers that list records. What strings.CutPrefix finds after "Bearer ", jwt.Parse, the major part of a
-- version (strings.SplitN) and strconv.ParseInt are given.
use voldepass.Prelude.{ℕ, String, ◌==◌, not, Option, none, some, List, map, if◌then◌else◌}
use voldepass.Domain.{
  Int64, int64_zero, RecordDto, SyncPullResponse, Result, ok, err, unauthorized, invalid_argument,
  ◌>>=◌,
}
use voldepass.Server.Ports.{RecordRepository}
use voldepass.Server.Service.Vault
use voldepass.Server.Service.Sync
use voldepass.Server.Service.Sync.{record_to_dto}
use voldepass.Server.Rest.{Reply, respond, user_id_from_context}

-- domain.APIVersion
abbrev pub api_version : String
api_version = "1.0.0"

-- AuthMiddleware: the user that the handlers find, or an error.
unfoldable pub authenticate : (String → Result String) → Option String → Result String
authenticate parse none = err unauthorized
authenticate parse (some token) =
    if token == ""
    then err unauthorized
    else elim (parse token) [ err _ ↦ err unauthorized | ok user_id ↦ ok user_id ]

-- CheckAPIVersion: the status with which a request is refused.
unfoldable pub check_api_version : (String → String) → String → Option ℕ
check_api_version major client_version =
    if client_version == ""
    then none
    else if not (major client_version == major api_version)
    then some 426
    else none

-- parseSinceVersion
unfoldable pub parse_since_version : (String → Result Int64) → String → Result Int64
parse_since_version parse_int raw =
    if raw == ""
    then ok int64_zero
    else elim (parse_int raw) [ err _ ↦ err invalid_argument | ok v ↦ ok v ]

module _ (parse_int : String → Result Int64) (records : RecordRepository) where
  -- VaultHandlers.List
  unfoldable pub list : Option String → String → records.State → Reply (List RecordDto)
  unfolding user_id_from_context parse_since_version
  list user since s = respond 200 (
      user_id_from_context user >>= λ owner_id. parse_since_version parse_int since >>= λ v.
      Vault.list records owner_id v s >>= λ recs. ok (map record_to_dto recs))

  -- SyncHandlers.Pull
  unfoldable pub pull : Option String → String → records.State → Reply SyncPullResponse
  unfolding user_id_from_context parse_since_version
  pull user since s = respond 200 (
      user_id_from_context user >>= λ owner_id.
      parse_since_version parse_int since >>= λ v. Sync.pull records owner_id v s)
