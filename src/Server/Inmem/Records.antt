-- ===== src/Server/Inmem/Records.antt =====
-- internal/server/storage/inmem/record.go.
pub mod Invariant
pub mod Versions
use voldepass.Prelude.{
  String, ◌≡◌, none, some, List, [], ◌∷◌, ◌==◌, eqb, ltb, ◌&&◌, if◌then◌else◌, filter, dec_true,
  Bool, true, eq_iff, arith, inl, inr, Option-cases,
}
use voldepass.GoMap.{GoMap, lookup, insert, values}
use voldepass.Domain.{Time, Int64, int64_zero, increment, Record, Result, ok, err, not_found}
use voldepass.Server.Ports
use voldepass.Server.Ports.{Upserted, saved, stale}

pub record Repository : Type 0 where
  pub records : GoMap Record
  pub seq : Int64

-- NewRecordRepository
unfoldable pub new : Repository
new = record { records = []; seq = int64_zero }

-- The write that ends Upsert: the next version, the time, and the record under its id.
unfoldable pub write : Time → Record → Repository → Upserted × Repository
write now rec r =
    let seq = increment r.seq in
    let rec' : Record = record rec { version = seq; updated_at = now } in
    (saved rec', record { records = insert rec.id rec' r.records; seq = seq })

-- Upsert
unfoldable pub upsert : Time → Record → Int64 → Repository → Upserted × Repository
unfolding write
upsert now rec base_version r = elim (lookup rec.id r.records) [
  | none ↦ write now rec r
  | some existing ↦
      if eqb existing.version base_version then write now rec r else (stale existing, r)
]

abbrev pub is_changed : String → Int64 → Record → Bool
is_changed owner_id since_version rec = rec.owner_id == owner_id && ltb since_version rec.version

-- ListSince
unfoldable pub list_since : String → Int64 → Repository → List Record
list_since owner_id since_version r =
    filter (λ rec. dec_true (is_changed owner_id since_version rec)) (values r.records)

-- Get
unfoldable pub get : String → String → Repository → Result Record
get id owner_id r = elim (lookup id r.records) [
  | none ↦ err not_found
  | some rec ↦ if rec.owner_id == owner_id then ok rec else err not_found
]

-- The write that ends Delete: the record found under `id`, marked deleted, under the next version.
unfoldable pub bury : Time → String → Record → Repository → Repository
bury now id rec r =
    let seq = increment r.seq in
    let rec' : Record = record rec { deleted = true; version = seq; updated_at = now } in
    record { records = insert id rec' r.records; seq = seq }

-- Delete
unfoldable pub delete : Time → String → String → Repository → Result (Unit {0}) × Repository
unfolding bury
delete now id owner_id r = elim (lookup id r.records) [
  | none ↦ (err not_found, r)
  | some rec ↦ if rec.owner_id == owner_id then (ok tt, bury now id rec r) else (err not_found, r)
]

pub get_owner :
    (id owner_id : String) (r : Repository) (rec : Record)
    → get id owner_id r ≡ ok rec
    → rec.owner_id ≡ owner_id
unfolding get
get_owner id owner_id r rec h = elim (Option-cases (lookup id r.records)) [
  | inl e ↦ ground arith
  | inr (x, e) ↦ ground (arith, eq_iff x.owner_id owner_id)
]

pub upsert_stale :
    (now : Time) (rec : Record) (base : Int64) (r : Repository) (current : Record)
    → (upsert now rec base r).0 ≡ stale current
    → (upsert now rec base r).1 ≡ r
unfolding upsert
upsert_stale now rec base r current h = ground arith

-- The in-memory store as the services see it.
abbrev pub port : Ports.RecordRepository
port = record {
  State = Repository;
  upsert = upsert;
  list_since = λ o v r. ok (list_since o v r);
  get = get;
  delete = delete;
  get_owner = get_owner;
  upsert_stale = upsert_stale;
}

-- A call that may change the store, with the time at which it runs.
pub data Call : Type 0 where
  upserts : Time → Record → Int64 → Call
  deletes : Time → String → String → Call

unfoldable pub step : Repository → Call → Repository
unfolding upsert delete
step r (upserts now rec base) = (upsert now rec base r).1
step r (deletes now id owner_id) = (delete now id owner_id r).1

unfoldable pub run : Repository → List Call → Repository
unfolding step
run r [] = r
run r (c ∷ cs) = run (step r c) cs
