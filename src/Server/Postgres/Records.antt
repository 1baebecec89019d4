-- ===== src/Server/Postgres/Records.antt =====
-- internal/server/storage/postgres/record.go: the table `records` and the sequence of its versions.
pub mod Listing
pub mod Versions
pub mod Overlap
pub mod Owner
use voldepass.Prelude.{
  String, Option, none, some, List, [], ◌∷◌, ◌+◌, ◌^◌, ◌==◌, eqb, ltb, leb, ◌&&◌, if◌then◌else◌,
  filter, dec_true, Bool, true,
}
use voldepass.GoMap.{GoMap, lookup, insert, values}
use voldepass.Domain.{Time, Int64, int64_zero, Record, Result, ok, err, not_found, internal}
use voldepass.Server.Ports.{Upserted, saved, stale, failed}

-- The rows under their primary key, and the value that nextval gave last.
pub record Table : Type 0 where
  pub rows : GoMap Record
  pub seq : Int64

-- The tables that the migrations create.
unfoldable pub new : Table
new = record { rows = []; seq = int64_zero }

-- nextval('records_version_seq'): it fails after the largest bigint. What it gave stays given,
-- whatever becomes of the statement.
unfoldable pub nextval : Table → Option Int64 × Table
nextval t =
    if ltb (t.seq + 1) (2 ^ 64) then (some (t.seq + 1), record t { seq = t.seq + 1 }) else (none, t)

-- The row that the INSERT proposes
abbrev pub proposed : Time → Record → Int64 → Record
proposed now rec version = record rec { version = version; updated_at = now }

-- DO UPDATE SET: the owner and the type of the row stay.
abbrev pub updated : Time → Record → Int64 → Record → Record
updated now rec version row = record row {
  encrypted_meta = rec.encrypted_meta;
  meta_nonce = rec.meta_nonce;
  ciphertext = rec.ciphertext;
  nonce = rec.nonce;
  version = version;
  updated_at = now;
  deleted = rec.deleted;
}

-- Get
unfoldable pub get : Bool → String → String → Table → Result Record
get fails id owner_id t = if fails then err internal else elim (lookup id t.rows) [
  | none ↦ err not_found
  | some rec ↦ if rec.owner_id == owner_id then ok rec else err not_found
]

-- What Upsert returns after a write that the WHERE refused.
abbrev pub refused : Result Record → Upserted
refused (ok current) = stale current
refused (err e) = failed e

-- DO UPDATE on a row that its WHERE lets pass
unfoldable pub overwrite : Time → Record → Record → Table → Upserted × Table
unfolding nextval
overwrite now rec row t =
    let (drawn, t') = nextval t in
    elim drawn [
      | none ↦ (failed internal, t')
      | some version ↦
          let row' = updated now rec version row in
          (saved row', record t' { rows = insert rec.id row' t'.rows })
    ]

-- DO UPDATE on a row that is there, with its WHERE, and what follows in Upsert
unfoldable pub do_update : Bool → Time → Record → Int64 → Record → Table → Upserted × Table
unfolding overwrite
do_update get_fails now rec base_version row t =
    if eqb row.version base_version
    then overwrite now rec row t
    else (refused (get get_fails rec.id rec.owner_id t), t)

-- The INSERT of Upsert from the moment at which it has drawn `version` for the row that it
-- proposes, and what follows in Upsert. Other statements may be done between the two.
unfoldable pub settle : Bool → Time → Record → Int64 → Int64 → Table → Upserted × Table
unfolding do_update
settle get_fails now rec base_version version t = elim (lookup rec.id t.rows) [
  | none ↦
      let row = proposed now rec version in
      (saved row, record t { rows = insert rec.id row t.rows })
  | some row ↦ do_update get_fails now rec base_version row t
]

-- Upsert, with no other statement in between
unfoldable pub upsert : Bool → Bool → Time → Record → Int64 → Table → Upserted × Table
unfolding settle
upsert fails get_fails now rec base_version t =
    if fails
    then (failed internal, t)
    else let (drawn, t') = nextval t in
      elim drawn [
        | none ↦ (failed internal, t')
        | some version ↦ settle get_fails now rec base_version version t'
      ]

-- ORDER BY version
unfoldable pub insert_by_version : Record → List Record → List Record
insert_by_version x [] = x ∷ []
insert_by_version x (y ∷ ys) =
    let rest = insert_by_version x ys in if leb x.version y.version then x ∷ y ∷ ys else y ∷ rest

unfoldable pub order_by_version : List Record → List Record
unfolding insert_by_version
order_by_version [] = []
order_by_version (x ∷ xs) = insert_by_version x (order_by_version xs)

abbrev pub is_changed : String → Int64 → Record → Bool
is_changed owner_id since_version rec = rec.owner_id == owner_id && ltb since_version rec.version

-- The rows that ListSince selects, in order
unfoldable pub selected : String → Int64 → Table → List Record
unfolding order_by_version
selected owner_id since_version t =
    order_by_version
      (filter (λ rec. dec_true (is_changed owner_id since_version rec)) (values t.rows))

-- ListSince
unfoldable pub list_since : Bool → String → Int64 → Table → Result (List Record)
unfolding selected
list_since fails owner_id since_version t =
    if fails then err internal else ok (selected owner_id since_version t)

-- The UPDATE of Delete on a row that it matches
unfoldable pub bury : Time → String → Record → Table → Result (Unit {0}) × Table
unfolding nextval
bury now id row t =
    let (drawn, t') = nextval t in
    elim drawn [
      | none ↦ (err internal, t')
      | some version ↦
          let row' : Record = record row { deleted = true; version = version; updated_at = now } in
          (ok tt, record t' { rows = insert id row' t'.rows })
    ]

-- Delete
unfoldable pub delete : Bool → Time → String → String → Table → Result (Unit {0}) × Table
unfolding bury
delete fails now id owner_id t = if fails then (err internal, t) else elim (lookup id t.rows) [
  | none ↦ (err not_found, t)
  | some row ↦ if row.owner_id == owner_id then bury now id row t else (err not_found, t)
]

-- A call that may change the table, with what fails and when it runs.
pub data Call : Type 0 where
  upserts : Bool → Bool → Time → Record → Int64 → Call
  deletes : Bool → Time → String → String → Call

unfoldable pub step : Table → Call → Table
unfolding upsert delete
step t (upserts fails get_fails now rec base) = (upsert fails get_fails now rec base t).1
step t (deletes fails now id owner_id) = (delete fails now id owner_id t).1

unfoldable pub run : Table → List Call → Table
unfolding step
run t [] = t
run t (c ∷ cs) = run (step t c) cs
