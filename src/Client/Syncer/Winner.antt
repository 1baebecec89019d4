-- ===== src/Client/Syncer/Winner.antt =====
-- Which side wins a conflict.
use voldepass.Prelude.{
  ℕ, String, Bool, ◌≡◌, sym, ◌∙◌, true, false, none, some, arith, if◌then◌else◌, inl, inr, ◌&&◌,
  ◌||◌, Option-cases, subst,
}
use voldepass.GoMap.{lookup}
use voldepass.GoMap.Laws.{lookup-insert_self, lookup-insert_ne}
use voldepass.Domain.{Time, RecordDto, after, int64_zero}
use voldepass.Client.Storage
use voldepass.Client.Storage.{StoredRecord}
use voldepass.Client.Syncer.Local.{
  Local, put, clean, rebased, resolve_conflict, merge, save_conflict_copy,
  save_conflict_copy_from_dto,
}
use voldepass.Client.Syncer.Merge.{IsValid, IsForeign}

-- The server's side wins a conflict if it alone is a deletion, or if both sides or neither is one
-- and the server's change is later than the local one.
abbrev pub server_wins : StoredRecord → RecordDto → Bool
server_wins r incoming =
    if r.is_deleted
    then incoming.is_deleted && after incoming.updated_at r.dirty_at
    else incoming.is_deleted || after incoming.updated_at r.dirty_at

-- The two ends under the record's id, whatever copy was saved.
put-clean :
    (incoming : RecordDto) (l : Local)
    → lookup incoming.id (put (clean incoming) l).store.records ≡ some (clean incoming)
unfolding Storage.put_record
put-clean incoming l = lookup-insert_self incoming.id _ _

put-rebased :
    (r : StoredRecord) (incoming : RecordDto) (l : Local)
    → r.id ≡ incoming.id
    → lookup incoming.id (put (rebased r incoming) l).store.records ≡ some (rebased r incoming)
unfolding Storage.put_record
put-rebased r incoming l e =
    subst (λ k. lookup k (put (rebased r incoming) l).store.records ≡ some (rebased r incoming)) e
      (lookup-insert_self r.id _ _)

resolve_conflict-winner :
    (uuid : ℕ → String) (now : Time) (r : StoredRecord) (incoming : RecordDto) (l : Local)
    → r.id ≡ incoming.id
    → lookup incoming.id (resolve_conflict uuid now r incoming l).store.records
      ≡ some (if server_wins r incoming then clean incoming else rebased r incoming)
unfolding resolve_conflict
resolve_conflict-winner uuid now r incoming l e = ground (
  arith,
  put-clean incoming l,
  put-clean incoming (save_conflict_copy uuid r l),
  put-rebased r incoming l e,
  put-rebased r incoming (save_conflict_copy_from_dto uuid now incoming l) e,
)

-- In a valid state, what a record that the server sent leaves under its id: the server's record,
-- as synchronised, if there is no local edit or if the server's side wins; otherwise the local
-- edit, based on the server's version.
pub merge-winner :
    (uuid : ℕ → String) (now : Time) (incoming : RecordDto) (l : Local)
    → IsValid uuid l
    → lookup incoming.id (merge uuid now incoming l).store.records
      ≡ some (elim (lookup incoming.id l.store.records) [
        | none ↦ clean incoming
        | some r ↦
            if r.dirty
            then if server_wins r incoming then clean incoming else rebased r incoming
            else clean incoming
      ])
unfolding merge Storage.get_record
merge-winner uuid now incoming l v = elim (Option-cases (lookup incoming.id l.store.records)) [
  | inl e ↦ rw (e, merge) (put-clean incoming l)
  | inr (r, e) ↦
      rw (e, merge)
        (ground (
          arith,
          put-clean incoming l,
          resolve_conflict-winner uuid now r incoming l (v.keyed incoming.id r e),
        ))
]

-- In a valid state, a server's update that loses to a local deletion is not lost: it is kept as an
-- edit of its own, under the next id, if that is not the id of the server's record, to be sent to
-- the server.
pub merge-keeps_update :
    (uuid : ℕ → String) (now : Time) (incoming : RecordDto) (l : Local) (r : StoredRecord)
    → IsForeign uuid incoming
    → IsValid uuid l
    → lookup incoming.id l.store.records ≡ some r
    → r.dirty ≡ true
    → r.is_deleted ≡ true
    → incoming.is_deleted ≡ false
    → lookup (uuid l.uuids) (merge uuid now incoming l).store.records
      ≡ some (record {
        dto = record incoming { id = uuid l.uuids; base_version = int64_zero };
        dirty = true;
        dirty_at = now;
      })
unfolding merge resolve_conflict save_conflict_copy_from_dto Storage.get_record Storage.put_record
merge-keeps_update uuid now incoming l r foreign v found dirty gone kept =
    rw (found, merge, dirty, resolve_conflict, gone, kept)
      (lookup-insert_ne r.id (uuid l.uuids) _ _
          (λ p. foreign l.uuids (sym p ∙ v.keyed incoming.id r found))
        ∙ lookup-insert_self (uuid l.uuids) _ _)
