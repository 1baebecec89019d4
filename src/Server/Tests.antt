-- ===== src/Server/Tests.antt =====
-- Runs of the server's operations on concrete inputs: the record store and the services over it.
pub mod Fixtures
mod Accounts
mod Handlers
mod Requests
mod Postgres
use mathlib.Core.List.{flatten}
use voldepass.Prelude.{
  ℕ, String, ◌≡◌, ◌≢◌, refl, true, false, none, some, List, [], ◌∷◌, ◌+◌, ◌≤◌, ◌<◌, ◌⊎◌, arith, Mem,
  All, eq_iff, ◌^◌,
}
use voldepass.GoMap.{lookup, insert}
use voldepass.Domain.{Record, RecordDto, Result, ok, err, PushResult, SyncPushResponse}
use voldepass.Server.Ports.{saved, stale}
use voldepass.Server.Inmem.Records
use voldepass.Server.Inmem.Records.Invariant.{IsValid, HasRoom, run-IsValid, new-IsValid}
use voldepass.Server.Inmem.Records.Versions.{list_since-run, list_since-All, upsert_twice}
use voldepass.Server.Inmem.Idempotency
use voldepass.Server.Inmem.Idempotency.Keys.{entry_key_injective}
use voldepass.Server.Service.Vault.Isolation.{VaultCall, updates, serve, serve-isolated}
use voldepass.Server.Service.Sync.{push, push_records, finish, dto_to_record, record_to_dto}
use voldepass.Server.Service.Sync.Retry.{push_retry}
use voldepass.Server.Service.Sync.Batch.{
  Reports, push_records_lem, push_records-visible, push_records-takes_over,
}
use voldepass.Server.Tests.Fixtures.{
  start, alice, retry_key, answer, note, note', held, shop, history, codec, codec-RoundTrips, dto,
  request,
}

run-IsValid_example : IsValid (Records.run Records.new history)
unfolding Records.new
run-IsValid_example = run-IsValid Records.new history (omega arith) new-IsValid

shop-IsValid : IsValid shop
unfolding lookup
shop-IsValid = record { unique = (refl, tt); filed = ((refl, omega arith), tt) }

upsert_twice_example :
    Records.upsert 30 note' held.version (Records.upsert 20 note held.version shop).1 ≡ (
      stale (record note { version = 2 ^ 63 + 2; updated_at = 20 }),
      (Records.upsert 20 note held.version shop).1,
    )
unfolding Records.upsert lookup
upsert_twice_example =
    upsert_twice 20 30 note note' (record note { version = 2 ^ 63 + 2; updated_at = 20 })
      held.version shop shop-IsValid (omega arith) refl (omega arith) refl

serve-isolated_example :
    lookup "r1" (serve "bob" shop (updates 20 note held.version)).records ≡ some held
unfolding lookup
serve-isolated_example =
    serve-isolated "bob" "r1" shop (updates 20 note held.version) held tt refl
      (λ e. ground (arith, eq_iff "alice" "bob"))

push_records_lem_example :
    (ps : List PushResult) × (push_records Records.port 20 "alice" (dto ∷ []) shop
      ≡ (ok ps, Records.run shop (Records.upserts 20 note dto.base_version ∷ [])))
    × Reports 20 "alice" shop (dto ∷ []) ps
unfolding dto_to_record
push_records_lem_example = push_records_lem 20 "alice" (dto ∷ []) shop

push_records-takes_over_example :
    (y : Record) × (lookup "r1" (push_records Records.port 20 "bob" (dto ∷ []) shop).1.records
      ≡ some y)
    × (y.owner_id ≡ "bob")
    × (y.ciphertext ≡ dto.ciphertext)
unfolding lookup
push_records-takes_over_example =
    push_records-takes_over 20 "bob" dto shop held refl (λ e. ground (arith, eq_iff "alice" "bob"))
      refl

push_records-visible_example :
    (lookup "r1" shop.records ≡ some (record note { version = 2 ^ 63 + 2; updated_at = 20 }))
    ⊎ Mem
        (record note { version = 2 ^ 63 + 2; updated_at = 20 })
        (Records.list_since "alice" shop.seq
          (push_records Records.port 20 "alice" (dto ∷ []) shop).1)
unfolding push_records Records.upsert lookup insert
push_records-visible_example =
    push_records-visible 20 "alice" "r1" (dto ∷ []) shop
      (record note { version = 2 ^ 63 + 2; updated_at = 20 }) (omega arith) refl

push_retry_example :
    let state' = (push Records.port Idempotency.port codec 20 alice retry_key request start).1 in
    ((push Records.port Idempotency.port codec 50 alice retry_key
        (record { records = [] })
        state').0
      ≡ ok (record { results = answer 7 (2 ^ 63 + 2) 20 ∷ [] }))
    × ((push Records.port Idempotency.port codec 50 alice retry_key
          (record { records = [] })
          state').1.0
        ≡ state'.0)
unfolding push finish push_records record_to_dto dto_to_record Records.upsert lookup insert
    Idempotency.get Idempotency.save
push_retry_example =
    push_retry Records.port Idempotency.port codec 20 50 alice retry_key request
      (record { records = [] }) start (record { results = answer 7 (2 ^ 63 + 2) 20 ∷ [] })
      codec-RoundTrips refl refl (omega arith)
