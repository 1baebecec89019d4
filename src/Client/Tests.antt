-- ===== src/Client/Tests.antt =====
-- Runs of the client's operations on concrete inputs: the synchronisation.
pub mod Fixtures
mod Screens
mod Sealing
mod Files
mod Commands
mod Configs
mod Backup
mod Passwords
mod Sessions
use mathlib.Core.List.{flatten, filter_map}
use voldepass.Prelude.{
  ℕ, suc, String, Bool, ◌≡◌, ◌≢◌, refl, true, false, none, some, Option, List, [], ◌∷◌, ◌++◌, ◌+◌,
  ◌≤◌, ◌<◌, ◌⊎◌, arith, Mem, All, map, length, eq_iff, ◌^◌,
}
use voldepass.GoMap.{lookup, insert, values, delete}
use voldepass.Domain.{
  int64_zero, Record, RecordDto, Result, ok, err, internal, PushResult, applied, conflicted,
  SyncPullResponse,
}
use voldepass.Server.Inmem.Records
use voldepass.Client.Storage
use voldepass.Client.Storage.{StoredRecord, PendingBatch}
use voldepass.Client.Syncer.Local.{
  Local, clean, rebased, merge, merge_all, store_results, chunk_records, newest, apply_push_results,
  resolve_conflict, save_conflict_copy_from_dto,
}
use voldepass.Client.Syncer.Run.{
  Transport, World, pull, push_all, replay_batch, replay_batches, replay_pending, replay_request,
  acknowledge,
}
use voldepass.Client.Syncer.Chunks.{chunk_limit, chunk_records_lem}
use voldepass.Client.Syncer.Edits.{HoldsEdit, content, merge_all-HoldsEdit}
use voldepass.Client.Syncer.Winner.{server_wins, merge-winner, merge-keeps_update}
use voldepass.Client.Syncer.Cursor.{pull-cursor, push-cursor_skips}
use voldepass.Client.Syncer.Push.{applied_record, lookup-store_results}
use voldepass.Client.Syncer.Pending.{Left, push_all-pending}
use voldepass.Client.Syncer.Replay.{replay_pending-empty, replay_batch-overwrites}
use voldepass.Client.Tests.Fixtures.{
  uuid, uuid-IsInjective, uuid-IsForeign, theirs, mine, here, here-IsValid, gone, gone-IsValid,
  deleted, taken, took, working, broken, batch, interrupted,
}

-- A record that another device wrote on version 2, which this client has not pulled.
abbrev elsewhere : Record
elsewhere = record {
  id = "r2";
  owner_id = "alice";
  data_type = 1;
  encrypted_meta = [];
  meta_nonce = [];
  ciphertext = [];
  nonce = [];
  version = 2 ^ 63 + 2;
  updated_at = 9;
  deleted = false;
}

merge_all-HoldsEdit_example : HoldsEdit (content mine.dto) (merge_all uuid 9 (theirs ∷ []) here)
unfolding lookup
merge_all-HoldsEdit_example =
    merge_all-HoldsEdit uuid 9 uuid-IsInjective (theirs ∷ []) (content mine.dto) here
      (uuid-IsForeign, tt) here-IsValid ("r1", mine, refl, refl, refl)

merge-winner_example : lookup "r1" (merge uuid 9 theirs here).store.records ≡ some (clean theirs)
unfolding lookup
merge-winner_example = merge-winner uuid 9 theirs here here-IsValid

pull-cursor_example :
    (int64_zero ≤ 2 ^ 63 + 2)
    × All (λ d. d.version ≤ 2 ^ 63 + 2) (theirs ∷ [])
    × ((2 ^ 63 + 2 ≡ int64_zero) ⊎ Mem (2 ^ 63 + 2) (map (λ d. d.version) (theirs ∷ [])))
unfolding pull newest Storage.set_last_sync_version
pull-cursor_example = pull-cursor working uuid 9 (tt, here) (record { records = theirs ∷ [] }) refl

push-cursor_skips_example : ¬ Mem elsewhere (
    Records.list_since "alice"
      (apply_push_results (record { results = took ∷ [] }) here.store).0.last_sync_version
      (record { records = ("r2", elsewhere) ∷ []; seq = 2 ^ 63 + 3 }))
push-cursor_skips_example =
    push-cursor_skips (record { results = took ∷ [] }) here.store took [] [] "alice"
      (record { records = ("r2", elsewhere) ∷ []; seq = 2 ^ 63 + 3 }) elsewhere refl refl
      (omega arith)

push_all-pending_example :
    Left broken uuid [] ((mine ∷ []) ∷ []) (push_all broken uuid ((mine ∷ []) ∷ []) (tt, here))
push_all-pending_example = push_all-pending broken uuid ((mine ∷ []) ∷ []) (tt, here) tt

replay_batch-overwrites_example :
    lookup "r1" (replay_batch working uuid batch (tt, interrupted)).1.1.store.records
    ≡ some (clean taken)
unfolding replay_request Storage.get_record applied_record lookup filter_map
replay_batch-overwrites_example =
    replay_batch-overwrites working uuid batch (tt, interrupted) mine.dto []
      (record { results = took ∷ [] }) "r1" taken refl refl refl
