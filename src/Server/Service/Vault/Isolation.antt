-- ===== src/Server/Service/Vault/Isolation.antt =====
-- internal/server/service/vault.go over the in-memory repository: no Create, Update or Delete of one
-- user touches a record of another. A push of the synchronisation is not one of these calls.
use voldepass.Prelude.{String, ◌≡◌, ◌≢◌, true, none, some, arith, eq_iff, Option-cases, inl, inr}
use voldepass.GoMap.{lookup}
use voldepass.GoMap.Laws.{lookup-insert}
use voldepass.Domain.{Time, Int64, Record, increment}
use voldepass.Server.Inmem.Records
use voldepass.Server.Service.Vault

-- The calls of the vault service that may change the store, by one user.
pub data VaultCall : Type 0 where
  creates : Time → String → Record → VaultCall
  updates : Time → Record → Int64 → VaultCall
  deletes : Time → String → VaultCall

unfoldable pub serve : String → Records.Repository → VaultCall → Records.Repository
unfolding Vault.create Vault.update Vault.delete Records.upsert Records.delete Records.get
serve owner_id r (creates now new_id rec) = (Vault.create Records.port now new_id owner_id rec r).1
serve owner_id r (updates now rec base) = (Vault.update Records.port now owner_id rec base r).1
serve owner_id r (deletes now id) = (Vault.delete Records.port now owner_id id r).1

-- Create draws an id that no record has.
abbrev pub IsFresh : Records.Repository → VaultCall → Type 0
IsFresh r (creates now new_id rec) = lookup new_id r.records ≡ none
IsFresh r _ = Unit

-- A Create, Update or Delete of the vault service, called by one user, leaves every record of another
-- user as it is, provided that Create draws an id that is not in use.
pub serve-isolated :
    (owner_id k : String) (r : Records.Repository) (q : VaultCall) (x : Record)
    → IsFresh r q
    → lookup k r.records ≡ some x
    → x.owner_id ≢ owner_id
    → lookup k (serve owner_id r q).records ≡ some x
unfolding serve
serve-isolated owner_id k r (creates now new_id rec) x fresh e ne =
    let rec' : Record = record rec {
      id = new_id;
      owner_id = owner_id;
      version = increment r.seq;
      updated_at = now;
    } in
    ground (arith, fresh, lookup-insert new_id k rec' r.records, eq_iff new_id k)
serve-isolated owner_id k r (updates now rec base) x fresh e ne =
    elim (Option-cases (lookup rec.id r.records)) [
      | inl f ↦ ground arith
      | inr (y, f) ↦
          let rec' : Record = record rec {
            owner_id = owner_id;
            version = increment r.seq;
            updated_at = now;
          } in
          ground (
            arith,
            lookup-insert rec.id k rec' r.records,
            eq_iff rec.id k,
            eq_iff y.owner_id owner_id,
          )
    ]
serve-isolated owner_id k r (deletes now id) x fresh e ne =
    elim (Option-cases (lookup id r.records)) [
      | inl f ↦ ground arith
      | inr (y, f) ↦
          let y' : Record = record y {
            deleted = true;
            version = increment r.seq;
            updated_at = now;
          } in
          ground (arith, lookup-insert id k y' r.records, eq_iff id k, eq_iff y.owner_id owner_id)
    ]
