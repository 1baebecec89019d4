-- ===== src/Server/Tests/Requests.antt =====
-- A run of a push as an HTTP request.
use voldepass.Prelude.{String, Bool, ◌==◌, refl, some, [], ◌∷◌, ◌+◌, ◌^◌}
use Prim.Native.String.{count}
use voldepass.GoMap.{lookup, insert}
use voldepass.Domain.{valid}
use voldepass.Server.Inmem.Records
use voldepass.Server.Inmem.Idempotency
use voldepass.Server.Service.Sync
use voldepass.Server.Service.Sync.{finish, push_records, record_to_dto, dto_to_record}
use voldepass.Server.Rest.{
  decoded, push, check_push, check_key, check_records, check_type, user_id_from_context,
  validate_short_string, validate_record_id, decode_error,
}
use voldepass.Server.Rest.Valid.{IsAccepted, push-IsAccepted}
use voldepass.Server.Tests.Fixtures.{alice, retry_key, request, codec, answer, start}

abbrev is_uuid : String → Bool
is_uuid id = id == "r1"

push-IsAccepted_example : IsAccepted is_uuid count (some alice) retry_key (decoded request)
unfolding push check_push check_key check_records check_type user_id_from_context
    validate_short_string validate_record_id decode_error valid Sync.push finish push_records
    record_to_dto dto_to_record Records.upsert lookup insert Idempotency.get Idempotency.save
push-IsAccepted_example =
    push-IsAccepted is_uuid count Records.port Idempotency.port codec 20 (some alice) retry_key
      (decoded request) start (record { results = answer 7 (2 ^ 63 + 2) 20 ∷ [] }) refl
