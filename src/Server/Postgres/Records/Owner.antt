-- ===== src/Server/Postgres/Records/Owner.antt =====
-- To whom a row of the Postgres repository belongs: the one that made it, for good; but the WHERE of
-- an Upsert does not ask who writes.
use voldepass.Prelude.{
  String, ◌≡◌, ◌≢◌, some, none, Option, List, [], ◌∷◌, ◌+◌, ◌^◌, ◌<◌, arith, inl, inr, Option-cases,
  eq_iff, Bool, ◌==◌, true, false, if◌then◌else◌,
}
use voldepass.GoMap.{lookup}
use voldepass.GoMap.Laws.{lookup-insert}
use voldepass.Domain.{Time, Int64, DataType, Record, not_found}
use voldepass.Server.Ports.{saved, stale, failed}
use voldepass.Server.Postgres.Records.{
  Table, nextval, proposed, updated, settle, do_update, overwrite, upsert, bury, delete, get, Call,
  upserts, deletes, step, run,
}

-- To whom the row of `k` belongs, and its type
unfoldable pub title : String → Table → Option (String × DataType)
title k t = elim (lookup k t.rows) [ none ↦ none | some x ↦ some (x.owner_id, x.data_type) ]

title-upsert :
    (fails get_fails : Bool) (now : Time) (rec : Record) (base : Int64) (t : Table) (k : String)
    (v : String × DataType)
    → title k t ≡ some v
    → title k (upsert fails get_fails now rec base t).1 ≡ some v
unfolding title upsert settle do_update overwrite nextval
title-upsert fails get_fails now rec base t k v w = elim (Option-cases (lookup rec.id t.rows)) [
  | inl e ↦
      let wrote = lookup-insert rec.id k (proposed now rec (t.seq + 1)) t.rows in
      ground (arith, wrote, eq_iff rec.id k)
  | inr (row, e) ↦
      let wrote = lookup-insert rec.id k (updated now rec (t.seq + 1 + 1) row) t.rows in
      ground (arith, wrote, eq_iff rec.id k)
]

title-delete :
    (fails : Bool) (now : Time) (id owner_id : String) (t : Table) (k : String)
    (v : String × DataType)
    → title k t ≡ some v
    → title k (delete fails now id owner_id t).1 ≡ some v
unfolding title delete bury nextval
title-delete fails now id owner_id t k v w = elim (Option-cases (lookup id t.rows)) [
  | inl e ↦ ground arith
  | inr (row, e) ↦
      let row' : Record = record row { deleted = true; version = t.seq + 1; updated_at = now } in
      let wrote = lookup-insert id k row' t.rows in ground (arith, wrote, eq_iff id k)
]

title-step :
    (t : Table) (c : Call) (k : String) (v : String × DataType)
    → title k t ≡ some v
    → title k (step t c) ≡ some v
unfolding step
title-step t (upserts fails get_fails now rec base) k v w =
    title-upsert fails get_fails now rec base t k v w
title-step t (deletes fails now id owner_id) k v w = title-delete fails now id owner_id t k v w

-- Once a row is there, no history of calls removes it, gives it to another owner or changes its type.
pub title-run :
    (t : Table) (cs : List Call) (k : String) (v : String × DataType)
    → title k t ≡ some v
    → title k (run t cs) ≡ some v
unfolding run
title-run t [] k v w = w
title-run t (c ∷ cs) k v w = title-run (step t c) cs k v (title-step t c k v w)

-- An Upsert by another user with the version that the row has: if the sequence has room for two
-- values, it is saved, and the row keeps its owner but holds the other user's ciphertext.
pub upsert-foreign :
    (now : Time) (rec row : Record) (t : Table)
    → lookup rec.id t.rows ≡ some row
    → t.seq + 2 < 2 ^ 64
    → (upsert false false now rec row.version t).0 ≡ saved (updated now rec (t.seq + 2) row)
unfolding upsert settle do_update overwrite nextval
upsert-foreign now rec row t e h = ground arith

-- What Upsert answers to a stale base version, by whether the row is the caller's.
pub upsert-refused :
    (now : Time) (rec row : Record) (base : Int64) (t : Table)
    → lookup rec.id t.rows ≡ some row
    → row.version ≢ base
    → t.seq + 1 < 2 ^ 64
    → upsert false false now rec base t ≡ (
      (if row.owner_id == rec.owner_id then stale row else failed not_found),
      record t { seq = t.seq + 1 },
    )
unfolding upsert settle do_update nextval get
upsert-refused now rec row base t e ne h = ground arith
