-- ===== src/Server/Service/Sync/Batch.antt =====
-- A push over the in-memory repository: it is the history of its upserts, one result for each
-- record, in order.
use mathlib.Core.Option
use voldepass.Prelude.{
  String, ◌≡◌, ◌≢◌, refl, ap, none, some, List, [], ◌∷◌, map, arith, Option-cases, inl, inr, length,
  eqb, Bool-cases, if◌then◌else◌, ◌⊎◌, Mem, sym, length-map,
}
use voldepass.GoMap.{lookup, insert}
use voldepass.GoMap.Laws.{lookup-insert_self}
use voldepass.Domain.{
  Time, Int64, increment, Record, RecordDto, Result, ok, PushResult, PushStatus, applied,
  conflicted,
}
use voldepass.Server.Ports.{saved, stale}
use voldepass.Server.Inmem.Records
use voldepass.Server.Inmem.Records.Invariant.{HasRoom}
use voldepass.Server.Inmem.Records.Versions.{list_since-run}
use voldepass.Server.Service.Sync.{push_records, dto_to_record, record_to_dto}

abbrev calls : Time → String → List RecordDto → List Records.Call
calls now owner_id = map λ dto. Records.upserts now (dto_to_record dto owner_id) dto.base_version

abbrev Answer : Type 0
Answer = Result (List PushResult) × Records.Repository

-- The optimistic lock: an upsert is accepted where the id is new or its version is the base.
abbrev pub accepts : RecordDto → Records.Repository → PushStatus
accepts dto r = elim (lookup dto.id r.records) [
  | none ↦ applied
  | some x ↦ if eqb x.version dto.base_version then applied else conflicted
]

-- Each record of a batch is upserted into what the records before it left. Its result stands in its
-- place: the record's id, whether the lock accepted it, and what the repository holds under that id
-- after the upsert.
abbrev pub Reports : Time → String → Records.Repository → List RecordDto → List PushResult → Type 0
Reports now owner_id r [] [] = Unit
Reports now owner_id r [] (p ∷ ps) = ⊥
Reports now owner_id r (dto ∷ dtos) [] = ⊥
Reports now owner_id r (dto ∷ dtos) (p ∷ ps) =
    let r' = (Records.upsert now (dto_to_record dto owner_id) dto.base_version r).1 in
    (p.id ≡ dto.id)
    × (p.status ≡ accepts dto r)
    × (Option.map record_to_dto (lookup dto.id r'.records) ≡ some p.server_record)
    × Reports now owner_id r' dtos ps

-- What Upsert gave and left, by the lock.
upsert-accepts :
    (now : Time) (owner_id : String) (dto : RecordDto) (r : Records.Repository)
    → let u = Records.upsert now (dto_to_record dto owner_id) dto.base_version r in
      (x : Record) × (lookup dto.id u.1.records ≡ some x)
      × (((u.0 ≡ saved x) × (accepts dto r ≡ applied))
          ⊎ ((u.0 ≡ stale x) × (accepts dto r ≡ conflicted)))
unfolding Records.upsert dto_to_record
upsert-accepts now owner_id dto r = elim (Option-cases (lookup dto.id r.records)) [
  | inl e ↦ (rec', ground (arith, written), inl (ground arith, ground arith))
  | inr (x, e) ↦ elim (Bool-cases (eqb x.version dto.base_version)) [
    | inl t ↦ (rec', ground (arith, written), inl (ground arith, ground arith))
    | inr f ↦ (x, ground arith, inr (ground arith, ground arith))
  ]
]
  where
    rec' : Record
    rec' = record (dto_to_record dto owner_id) { version = increment r.seq; updated_at = now }

    written : lookup dto.id (insert dto.id rec' r.records) ≡ some rec'
    written = lookup-insert_self dto.id rec' r.records

run-upserts :
    (now : Time) (rec : Record) (base : Int64) (r : Records.Repository) (cs : List Records.Call)
    → Records.run r (Records.upserts now rec base ∷ cs)
      ≡ Records.run (Records.upsert now rec base r).1 cs
unfolding Records.run
run-upserts now rec base r cs = refl

-- Over the in-memory repository a push never fails: it reports one result for each record, in the
-- order of the request, and leaves the repository after the upserts of its records in that order.
pub push_records_lem :
    (now : Time) (owner_id : String) (dtos : List RecordDto) (r : Records.Repository)
    → (ps : List PushResult) × (push_records Records.port now owner_id dtos r
        ≡ (ok ps, Records.run r (calls now owner_id dtos)))
      × Reports now owner_id r dtos ps
unfolding push_records
push_records_lem now owner_id [] r = ([], unfold Records.run in refl, tt)
push_records_lem now owner_id (dto ∷ dtos) r =
    let r' = (Records.upsert now (dto_to_record dto owner_id) dto.base_version r).1 in
    let (x, held, locked) = upsert-accepts now owner_id dto r in
    let (ps, rest, reports) = push_records_lem now owner_id dtos r' in
    elim locked [
      | inl (u, a) ↦ (
        record { id = dto.id; status = applied; server_record = record_to_dto x } ∷ ps,
        rw (run-upserts, u, push_records, rest) refl,
        (refl, sym a, rw held refl, reports),
      )
      | inr (u, a) ↦ (
        record { id = dto.id; status = conflicted; server_record = record_to_dto x } ∷ ps,
        rw (run-upserts, u, push_records, rest) refl,
        (refl, sym a, rw held refl, reports),
      )
    ]

-- A push reaches the other devices: after a push that the counter has room for, a record is either
-- the one that was there, or is listed for its owner from the counter before the push.
pub push_records-visible :
    (now : Time) (owner_id k : String) (dtos : List RecordDto) (r : Records.Repository) (x : Record)
    → HasRoom (length dtos) r
    → let r' = (push_records Records.port now owner_id dtos r).1 in
      lookup k r'.records ≡ some x
      → (lookup k r.records ≡ some x) ⊎ Mem x (Records.list_since x.owner_id r.seq r')
push_records-visible now owner_id k dtos r x room found =
    let (ps, e, reports) = push_records_lem now owner_id dtos r in
    let cs = calls now owner_id dtos in
    let after : (push_records Records.port now owner_id dtos r).1 ≡ Records.run r cs =
      ap (λ (t : Answer). t.1) e in
    rw after (list_since-run r cs k x (rw (length-map _ dtos) room) (rw after at found))

-- The lock does not look at the owner: a push of a record under the id of another user's record,
-- on its current version, hands that record over to the pushing user, with the pushed ciphertext.
pub push_records-takes_over :
    (now : Time) (thief : String) (dto : RecordDto) (r : Records.Repository) (x : Record)
    → lookup dto.id r.records ≡ some x
    → x.owner_id ≢ thief
    → dto.base_version ≡ x.version
    → (y : Record) × (lookup dto.id (push_records Records.port now thief (dto ∷ []) r).1.records
        ≡ some y)
      × (y.owner_id ≡ thief)
      × (y.ciphertext ≡ dto.ciphertext)
unfolding push_records Records.upsert dto_to_record
push_records-takes_over now thief dto r x found other base =
    let rec' : Record = record (dto_to_record dto thief) {
      version = increment r.seq;
      updated_at = now;
    } in
    (rec', ground (arith, lookup-insert_self dto.id rec' r.records), refl, refl)
