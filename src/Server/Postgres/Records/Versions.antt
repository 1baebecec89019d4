-- ===== src/Server/Postgres/Records/Versions.antt =====
-- What the versions of the Postgres repository promise, and what they do not.
use voldepass.Prelude.{
  String, ◌≡◌, refl, Option, some, List, [], ◌∷◌, ◌≤◌, ◌<◌, ◌+◌, arith, ◌⊎◌, inl, inr, Option-cases,
  Mem, true, sym, ◌∙◌, Bool,
}
use voldepass.GoMap.{GoMap, lookup, insert}
use voldepass.GoMap.Laws.{lookup-insert}
use voldepass.Domain.{Time, Int64, Record}
use voldepass.Server.Postgres.Records.{
  Table, nextval, proposed, updated, settle, overwrite, do_update, upsert, bury, delete, selected,
  Call, upserts, deletes, step, run,
}
use voldepass.Server.Postgres.Records.Listing.{selected-complete}

-- What was done to the row of a key: nothing, or a write that took a version above `seq`.
abbrev pub Kept : Int64 → Option Record → Option Record → Type 0
Kept seq old current = (current ≡ old) ⊎ ((x : Record) × (current ≡ some x) × (seq < x.version))

-- What a call does to the table, at a key: the sequence does not go back, and the row is kept.
abbrev pub GoesOn : String → Table → Table → Type 0
GoesOn k t t' = (t.seq ≤ t'.seq) × Kept t.seq (lookup k t.rows) (lookup k t'.rows)

insert-Kept :
    (id k : String) (x : Record) (seq : Int64) (m : GoMap Record)
    → seq < x.version
    → Kept seq (lookup k m) (lookup k (insert id x m))
insert-Kept id k x seq m h = ground (arith, lookup-insert id k x m)

do_update-GoesOn :
    (fails : Bool) (now : Time) (rec : Record) (base : Int64) (row : Record) (t : Table)
    (k : String)
    → GoesOn k t (do_update fails now rec base row t).1
unfolding do_update overwrite nextval
do_update-GoesOn fails now rec base row t k =
    let wrote = insert-Kept rec.id k (updated now rec (t.seq + 1) row) t.seq t.rows (omega arith) in
    ground (arith, wrote)

settle-GoesOn :
    (fails : Bool) (now : Time) (rec : Record) (base version seq : Int64) (t : Table) (k : String)
    → seq < version
    → seq ≤ t.seq
    → (seq ≤ (settle fails now rec base version t).1.seq)
      × Kept seq (lookup k t.rows) (lookup k (settle fails now rec base version t).1.rows)
unfolding settle
settle-GoesOn fails now rec base version seq t k h le = elim (Option-cases (lookup rec.id t.rows)) [
  | inl e ↦
      let wrote = insert-Kept rec.id k (proposed now rec version) seq t.rows h in
      ground (arith, wrote)
  | inr (row, e) ↦ let done = do_update-GoesOn fails now rec base row t k in ground (arith, done)
]

upsert-GoesOn :
    (fails get_fails : Bool) (now : Time) (rec : Record) (base : Int64) (t : Table) (k : String)
    → GoesOn k t (upsert fails get_fails now rec base t).1
unfolding upsert nextval
upsert-GoesOn fails get_fails now rec base t k =
    let done =
      settle-GoesOn get_fails now rec base (t.seq + 1) t.seq (record t { seq = t.seq + 1 }) k
        (omega arith) (omega arith) in
    ground (arith, done)

delete-GoesOn :
    (fails : Bool) (now : Time) (id owner_id : String) (t : Table) (k : String)
    → GoesOn k t (delete fails now id owner_id t).1
unfolding delete bury nextval
delete-GoesOn fails now id owner_id t k = elim (Option-cases (lookup id t.rows)) [
  | inl e ↦ ground arith
  | inr (row, e) ↦
      let row' : Record = record row { deleted = true; version = t.seq + 1; updated_at = now } in
      let wrote = insert-Kept id k row' t.seq t.rows (omega arith) in ground (arith, wrote)
]

step-GoesOn : (t : Table) (c : Call) (k : String) → GoesOn k t (step t c)
unfolding step
step-GoesOn t (upserts fails get_fails now rec base) k =
    upsert-GoesOn fails get_fails now rec base t k
step-GoesOn t (deletes fails now id owner_id) k = delete-GoesOn fails now id owner_id t k

run-GoesOn : (t : Table) (cs : List Call) (k : String) → GoesOn k t (run t cs)
unfolding run
run-GoesOn t [] k = (omega arith, inl refl)
run-GoesOn t (c ∷ cs) k = ground (arith, step-GoesOn t c k, run-GoesOn (step t c) cs k)

-- If the calls run one after the other, a client whose cursor is the value that the sequence had at
-- some point misses nothing: after any history of calls, of which any may fail, a row is either the
-- one that was there, or is selected for its owner from that cursor.
pub selected-run :
    (t : Table) (cs : List Call) (k : String) (x : Record)
    → lookup k (run t cs).rows ≡ some x
    → (lookup k t.rows ≡ some x) ⊎ Mem x (selected x.owner_id t.seq (run t cs))
selected-run t cs k x e = elim (run-GoesOn t cs k).1 [
  | inl same ↦ inl (sym same ∙ e)
  | inr (y, found, newer) ↦
      inr (selected-complete x.owner_id k t.seq (run t cs) x e refl (ground arith))
]
