-- ===== src/Client/Syncer/Run.antt =====
-- internal/client/service/syncer.go, the part that talks to the server.
use mathlib.Core.Option
use mathlib.Core.List.{filter_map}
use voldepass.Prelude.{ℕ, zero, suc, String, Bool, true, false, ◌||◌, List, [], ◌∷◌, map}
use voldepass.Domain.{
  Time, Int64, RecordDto, Result, ok, err, SyncPullResponse, SyncPushRequest, SyncPushResponse,
}
use voldepass.Client.Storage
use voldepass.Client.Storage.{StoredRecord, PendingBatch}
use voldepass.Client.Syncer.Local.{
  Local, merge_all, newest, chunk_records, record_ids, apply_push_results, remaining_conflicts,
}

-- syncTransport: what the client sees of the server, its state passed on explicitly.
pub record Transport : Type 1 where
  pub Server : Type 0
  pub pull : Int64 → Server → Result SyncPullResponse × Server
  pub push : String → SyncPushRequest → Server → Result SyncPushResponse × Server

module _ (transport : Transport) (uuid : ℕ → String) where
  -- The server, and the client's local state.
  abbrev pub World : Type 0
  World = transport.Server × Local

  -- pull
  unfoldable pub pull : Time → World → Result (Unit {0}) × World
  unfolding newest
  pull now (server, l) =
      let (resp, server') = transport.pull l.store.last_sync_version server in
      elim resp [
        | err e ↦ (err e, (server', l))
        | ok r ↦
            let l' = merge_all uuid now r.records l in
            let v = newest l.store.last_sync_version r.records in
            (ok tt, (server', record l' { store = Storage.set_last_sync_version v l'.store }))
      ]

  -- What follows the answer to a push: its results are applied, and the batch is cleared.
  unfoldable pub acknowledge : String → SyncPushResponse → Local → Local × Bool
  unfolding apply_push_results
  acknowledge key resp l =
      let (store, conflicts) = apply_push_results resp l.store in
      (record l { store = Storage.clear_pending_push key store }, conflicts)

  -- The body of pushAll's loop: the batch is recorded before it is sent.
  unfoldable pub push_chunk : List StoredRecord → World → Result Bool × World
  unfolding acknowledge record_ids
  push_chunk chunk (server, l) =
      let key = uuid l.uuids in
      let batch : PendingBatch = record { idempotency_key = key; record_ids = record_ids chunk } in
      let l1 : Local = record {
        store = Storage.add_pending_push batch l.store;
        uuids = suc l.uuids;
      } in
      let req : SyncPushRequest = record { records = map (λ (r : StoredRecord). r.dto) chunk } in
      let (resp, server') = transport.push key req server in
      elim resp [
        | err e ↦ (err e, (server', l1))
        | ok r ↦ let (l2, conflicts) = acknowledge key r l1 in (ok conflicts, (server', l2))
      ]

  abbrev pub or_conflicts : Bool → Result Bool × World → Result Bool × World
  or_conflicts b (ok c, w) = (ok (b || c), w)
  or_conflicts b (err e, w) = (err e, w)

  -- pushAll, over the chunks
  unfoldable pub push_all : List (List StoredRecord) → World → Result Bool × World
  push_all [] w = (ok false, w)
  push_all (chunk ∷ rest) w =
      let pushed = push_chunk chunk w in
      let others = push_all rest pushed.1 in
      elim pushed.0 [ err e ↦ (err e, pushed.1) | ok b ↦ or_conflicts b others ]

  -- The request that replayPending builds: the records of the batch, as they are now.
  unfoldable pub replay_request : PendingBatch → Storage.State → List RecordDto
  replay_request batch s =
      filter_map (λ id. Option.map (λ (r : StoredRecord). r.dto) (Storage.get_record id s))
        batch.record_ids

  -- The body of replayPending's loop.
  unfoldable pub replay_batch : PendingBatch → World → Result (Unit {0}) × World
  unfolding acknowledge replay_request
  replay_batch batch (server, l) = elim (replay_request batch l.store) [
    | [] ↦ (
      ok tt,
      (server, record l { store = Storage.clear_pending_push batch.idempotency_key l.store }),
    )
    | dto ∷ dtos ↦
        let (resp, server') =
          transport.push batch.idempotency_key (record { records = dto ∷ dtos }) server in
        elim resp [
          | err e ↦ (err e, (server', l))
          | ok r ↦ (ok tt, (server', (acknowledge batch.idempotency_key r l).0))
        ]
  ]

  unfoldable pub replay_batches : List PendingBatch → World → Result (Unit {0}) × World
  replay_batches [] w = (ok tt, w)
  replay_batches (batch ∷ rest) w =
      let replayed = replay_batch batch w in
      let others = replay_batches rest replayed.1 in
      elim replayed.0 [ err e ↦ (err e, replayed.1) | ok _ ↦ others ]

  -- replayPending
  unfoldable pub replay_pending : World → Result (Unit {0}) × World
  unfolding replay_batches
  replay_pending w = replay_batches w.1.store.pending_push w

  -- The loop of sync, with the rounds that are left.
  unfoldable pub rounds : ℕ → ℕ → Time → World → Result (List RecordDto) × World
  rounds zero chunk_size now w = (ok (remaining_conflicts w.1.store), w)
  rounds (suc n) chunk_size now w =
      let pulled = pull now w in
      let dirty = Storage.list_dirty pulled.1.1.store in
      let pushed = push_all (chunk_records dirty chunk_size) pulled.1 in
      let next = rounds n chunk_size now pushed.1 in
      elim pulled.0 [
        | err e ↦ (err e, pulled.1)
        | ok _ ↦ elim dirty [
          | [] ↦ (ok [], pulled.1)
          | _ ∷ _ ↦ elim pushed.0 [
            | err e ↦ (err e, pushed.1)
            | ok true ↦ next
            | ok false ↦ (ok [], pushed.1)
          ]
        ]
      ]

  -- Sync
  unfoldable pub sync : ℕ → ℕ → Time → World → Result (List RecordDto) × World
  unfolding rounds
  sync max_iterations chunk_size now w =
      let replayed = replay_pending w in
      let result = rounds max_iterations chunk_size now replayed.1 in
      elim replayed.0 [
        | err e ↦ (err e, replayed.1)
        | ok _ ↦ elim result.0 [
          | err e ↦ (err e, result.1)
          | ok conflicts ↦
              let (server, l) = result.1 in
              (ok conflicts, (server, record l { store = Storage.set_last_sync_at now l.store }))
        ]
      ]
