-- ===== src/System/Tests.antt =====
-- Runs of the parts together: a client with an edit of a record that the server holds.
use voldepass.Prelude.{◌≡◌, refl, []}
use voldepass.GoMap.{lookup, insert, values, delete}
use voldepass.Domain.{ok}
use voldepass.Server.Inmem.Records
use voldepass.Server.Inmem.Idempotency
use voldepass.Server.Service.Sync
use voldepass.Server.Tests.Fixtures.{alice, codec, start}
use voldepass.Client.Tests.Fixtures.{uuid, uuid-IsInjective, mine, holding}
use voldepass.Client.Storage
use voldepass.Client.Storage.{StoredRecord}
use voldepass.Client.Syncer.Local.{
  remaining_conflicts, newest, merge_all, merge, resolve_conflict, chunk_records, chunks,
  record_ids, store_results, newest_applied, had_conflicts, apply_push_results,
}
use voldepass.Client.Syncer.Run.{
  World, sync, rounds, pull, push_all, push_chunk, acknowledge, replay_pending, replay_batches,
}
use voldepass.Client.Syncer.Converge.{IsSound}
use voldepass.Client.Syncer.Report.{sync-reports}
use voldepass.System.Link.{link, contract, contract-IsReady}

-- The edit of "r1" that was made after the server's version.
abbrev world : World (link 20 alice codec) uuid
world = (start, holding (record mine { dirty_at = 20 }))

abbrev synced : World (link 20 alice codec) uuid
synced = (sync (link 20 alice codec) uuid 5 100 30 world).1

world-IsSound :
    IsSound (link 20 alice codec) uuid (contract 20 alice codec uuid) uuid-IsInjective world
unfolding lookup
world-IsSound = record {
  filed = record { unique = (refl, tt); filed = (refl, tt) };
  ready = contract-IsReady 20 alice codec uuid 0 world.0 (λ i le. refl);
  fresh = tt;
}

world-synced : (sync (link 20 alice codec) uuid 5 100 30 world).0 ≡ ok []
unfolding sync rounds pull push_all push_chunk acknowledge replay_pending replay_batches newest
    merge_all merge resolve_conflict chunk_records chunks record_ids store_results newest_applied
    had_conflicts apply_push_results Storage.get_record Storage.put_record Storage.list_dirty
    Storage.set_last_sync_version Storage.set_last_sync_at Storage.add_pending_push
    Storage.clear_pending_push lookup insert values delete Sync.pull Sync.push Sync.finish
    Sync.push_records Sync.record_to_dto Sync.dto_to_record Records.list_since Records.upsert
    Records.write Idempotency.get Idempotency.save Idempotency.entry_key
world-synced = refl

sync-reports_example : [] ≡ remaining_conflicts synced.1.store
sync-reports_example =
    sync-reports (link 20 alice codec) uuid (contract 20 alice codec uuid) uuid-IsInjective 5 100 30
      world [] world-IsSound world-synced
