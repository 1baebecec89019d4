-- ===== src/Client/Syncer/Local.antt =====
-- internal/client/service/syncer.go, the part that works on the local state. `uuid n` is the n-th id
-- that uuid.NewString draws; the number of ids drawn so far is part of the state. A synchronisation
-- runs at one reading of the clock.
use voldepass.Prelude.{
  ℕ, zero, suc, String, Bool, true, false, ◌||◌, not, ◌&&◌, none, some, List, [], ◌∷◌, map, ltb,
  length, take, drop, if◌then◌else◌,
}
use voldepass.Domain.{
  Time, after, Int64, int64_zero, RecordDto, SyncPushResponse, PushResult, applied, conflicted,
}
use voldepass.Client.Storage
use voldepass.Client.Storage.{StoredRecord, PendingBatch}

-- defaultChunkSize
abbrev pub default_chunk_size : ℕ
default_chunk_size = 100

-- defaultMaxIterations
abbrev pub default_max_iterations : ℕ
default_max_iterations = 5

-- The local state and the number of ids drawn.
pub record Local : Type 0 where
  pub store : Storage.State
  pub uuids : ℕ

abbrev pub put : StoredRecord → Local → Local
put r l = record l { store = Storage.put_record r l.store }

-- A record as it came from the server.
abbrev pub clean : RecordDto → StoredRecord
clean dto = record { dto = dto; dirty = false; dirty_at = 0 }

-- The local version stays, on the server's version as its base.
abbrev pub rebased : StoredRecord → RecordDto → StoredRecord
rebased r incoming = record r { dto = record r.dto { base_version = incoming.version } }

module _ (uuid : ℕ → String) where
  -- saveConflictCopy
  unfoldable pub save_conflict_copy : StoredRecord → Local → Local
  save_conflict_copy r l = record {
    store =
        Storage.put_record
          (record r { dto = record r.dto { id = uuid l.uuids; base_version = int64_zero } })
          l.store;
    uuids = suc l.uuids;
  }

  -- saveConflictCopyFromDTO
  unfoldable pub save_conflict_copy_from_dto : Time → RecordDto → Local → Local
  save_conflict_copy_from_dto now dto l = record {
    store =
        Storage.put_record
          (record {
            dto = record dto { id = uuid l.uuids; base_version = int64_zero };
            dirty = true;
            dirty_at = now;
          })
          l.store;
    uuids = suc l.uuids;
  }

  -- resolveConflict
  unfoldable pub resolve_conflict : Time → StoredRecord → RecordDto → Local → Local
  unfolding save_conflict_copy save_conflict_copy_from_dto
  resolve_conflict now r incoming l =
      if r.is_deleted && not incoming.is_deleted
      then put (rebased r incoming) (save_conflict_copy_from_dto now incoming l)
      else if not r.is_deleted && incoming.is_deleted
      then put (clean incoming) (save_conflict_copy r l)
      else if after incoming.updated_at r.dirty_at
      then put (clean incoming) (save_conflict_copy r l)
      else put (rebased r incoming) l

  -- The body of pull's loop.
  unfoldable pub merge : Time → RecordDto → Local → Local
  merge now incoming l = elim (Storage.get_record incoming.id l.store) [
    | none ↦ put (clean incoming) l
    | some r ↦ if r.dirty then resolve_conflict now r incoming l else put (clean incoming) l
  ]

  unfoldable pub merge_all : Time → List RecordDto → Local → Local
  unfolding merge
  merge_all now [] l = l
  merge_all now (incoming ∷ rest) l = merge_all now rest (merge now incoming l)

-- The largest version among the records, or the one given.
unfoldable pub newest : Int64 → List RecordDto → Int64
newest v [] = v
newest v (dto ∷ dtos) = newest (if ltb v dto.version then dto.version else v) dtos

-- chunkRecords' loop, with as many rounds as records at most.
unfoldable pub chunks : ℕ → ℕ → List StoredRecord → List (List StoredRecord)
chunks zero size rs = []
chunks (suc n) size [] = []
chunks (suc n) size (r ∷ rs) = take size (r ∷ rs) ∷ chunks n size (drop size (r ∷ rs))

-- chunkRecords
unfoldable pub chunk_records : List StoredRecord → ℕ → List (List StoredRecord)
unfolding chunks
chunk_records records zero = chunks (length records) default_chunk_size records
chunk_records records (suc n) = chunks (length records) (suc n) records

-- recordIDs
unfoldable pub record_ids : List StoredRecord → List String
record_ids = map λ r. r.id

-- The loop of applyPushResults over the store.
unfoldable pub store_results : List PushResult → Storage.State → Storage.State
store_results [] s = s
store_results (p ∷ ps) s = elim p.status [
  | applied ↦ store_results ps (Storage.put_record (clean p.server_record) s)
  | conflicted ↦ store_results ps s
]

abbrev pub is_applied : PushResult → Bool
is_applied p = elim p.status [ applied ↦ true | conflicted ↦ false ]

-- What the same loop counts: the largest applied version, and whether there was a conflict.
unfoldable pub newest_applied : Int64 → List PushResult → Int64
newest_applied v [] = v
newest_applied v (p ∷ ps) =
    newest_applied
      (if is_applied p && ltb v p.server_record.version then p.server_record.version else v) ps

unfoldable pub had_conflicts : List PushResult → Bool
had_conflicts [] = false
had_conflicts (p ∷ ps) = not (is_applied p) || had_conflicts ps

-- applyPushResults
unfoldable pub apply_push_results : SyncPushResponse → Storage.State → Storage.State × Bool
unfolding store_results newest_applied had_conflicts
apply_push_results resp s = (
  Storage.set_last_sync_version (newest_applied s.last_sync_version resp.results)
      (store_results resp.results s),
  had_conflicts resp.results,
)

-- remainingConflicts
unfoldable pub remaining_conflicts : Storage.State → List RecordDto
remaining_conflicts s = map (λ (r : StoredRecord). r.dto) (Storage.list_dirty s)
