-- ===== src/Server/Service/Vault.antt =====
-- internal/server/service/vault.go, over any record repository. The id that `newID` draws is an
-- argument of Create.
pub mod Isolation
use voldepass.Prelude.{String, List}
use voldepass.Domain.{
  Time, Int64, int64_zero, Record, Result, ok, err, Error, conflict, unauthorized,
}
use voldepass.Server.Ports.{RecordRepository, Upserted, saved, stale, failed}

-- The pair that Create and Update return after Upsert.
unfoldable pub to_result : Upserted → Result Record
to_result (saved r) = ok r
to_result (stale r) = err conflict
to_result (failed e) = err e

module _ (records : RecordRepository) where
  open records use {State}

  -- Create
  unfoldable pub create : Time → String → String → Record → State → Result Record × State
  unfolding to_result
  create now new_id owner_id rec s =
      let (u, s') =
        records.upsert now (record rec { id = new_id; owner_id = owner_id }) int64_zero s in
      (to_result u, s')

  -- checkOwner
  unfoldable pub check_owner : String → String → State → Result (Unit {0})
  check_owner id owner_id s = elim (records.get id owner_id s) [
    | ok _ ↦ ok tt
    | err _ ↦ err unauthorized
  ]

  -- Update
  unfoldable pub update : Time → String → Record → Int64 → State → Result Record × State
  unfolding to_result check_owner
  update now owner_id rec base_version s = elim (check_owner rec.id owner_id s) [
    | err e ↦ (err e, s)
    | ok _ ↦
        let (u, s') = records.upsert now (record rec { owner_id = owner_id }) base_version s in
        (to_result u, s')
  ]

  -- Get
  unfoldable pub get : String → String → State → Result Record
  get owner_id id s = records.get id owner_id s

  -- List
  unfoldable pub list : String → Int64 → State → Result (List Record)
  list owner_id since_version s = records.list_since owner_id since_version s

  -- Delete
  unfoldable pub delete : Time → String → String → State → Result (Unit {0}) × State
  unfolding check_owner
  delete now owner_id id s = elim (check_owner id owner_id s) [
    | err e ↦ (err e, s)
    | ok _ ↦ records.delete now id owner_id s
  ]
