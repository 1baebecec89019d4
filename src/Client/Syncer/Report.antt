-- ===== src/Client/Syncer/Report.antt =====
-- What Sync answers, compared with the local state that it leaves.
use voldepass.Prelude.{
  ℕ, zero, suc, ◌≤◌, String, ◌≡◌, ◌≢◌, refl, true, false, List, [], ◌∷◌, arith, inl, inr,
  List-cases, All, All-filter,
}
use voldepass.Domain.{Time, RecordDto, SyncPushRequest, SyncPushResponse, ok, Result-cases}
use voldepass.Client.Storage
use voldepass.Client.Storage.{StoredRecord, PendingBatch, is_other_batch}
use voldepass.Client.Syncer.Local.{
  Local, put, clean, rebased, save_conflict_copy, save_conflict_copy_from_dto, merge, merge_all,
  chunk_records, remaining_conflicts, apply_push_results,
}
use voldepass.Client.Syncer.Merge.{IsInjective, merge_cases, resolve_conflict_cases}
use voldepass.Client.Syncer.Push.{IsFresh-weaken, store_results-pending_push}
use voldepass.Client.Syncer.Dirty.{IsFiled, put_record-IsFiled, store_results-IsFiled}
use voldepass.Client.Syncer.Contract.{Contract}
use voldepass.Client.Syncer.Converge.{IsSound, push_all-IsSound, push_all-clean}
use voldepass.Client.Syncer.Run.{
  Transport, World, pull, push_all, acknowledge, rounds, sync, replay_request, replay_pending,
  replay_batch, replay_batches,
}

module _ (uuid : ℕ → String) (now : Time) where
  -- What a merge keeps of the state before it.
  abbrev Grown : Local → Local → Type 0
  Grown l m =
      IsFiled m.store.records × (l.uuids ≤ m.uuids) × (m.store.pending_push ≡ l.store.pending_push)

  put-Grown : (r : StoredRecord) (l m : Local) → Grown l m → Grown l (put r m)
  unfolding Storage.put_record
  put-Grown r l m (f, u, p) = (put_record-IsFiled r m.store f, u, p)

  merge-Grown :
      (incoming : RecordDto) (l m : Local) → Grown l m → Grown l (merge uuid now incoming m)
  unfolding save_conflict_copy save_conflict_copy_from_dto Storage.put_record
  merge-Grown incoming l m h =
      let drawn : (r : StoredRecord)
          → Grown l (record { store = Storage.put_record r m.store; uuids = suc m.uuids }) =
        λ r. let (f, u, p) = put-Grown r l m h in (f, omega arith, p) in
      merge_cases uuid now (Grown l) incoming m (λ _. put-Grown (clean incoming) l m h)
        (λ r e d.
          resolve_conflict_cases uuid now (Grown l) r incoming m
            (put-Grown (rebased r incoming) l (save_conflict_copy_from_dto uuid now incoming m)
              (drawn _))
            (put-Grown (clean incoming) l (save_conflict_copy uuid r m) (drawn _))
            (put-Grown (rebased r incoming) l m h))

  merge_all-Grown :
      (dtos : List RecordDto) (l m : Local) → Grown l m → Grown l (merge_all uuid now dtos m)
  unfolding merge_all
  merge_all-Grown [] l m h = h
  merge_all-Grown (dto ∷ dtos) l m h =
      merge_all-Grown dtos l (merge uuid now dto m) (merge-Grown dto l m h)

module _ (transport : Transport) (uuid : ℕ → String) (contract : Contract transport uuid)
    (distinct : IsInjective uuid) where
  abbrev Sound : World transport uuid → Type 0
  Sound = IsSound transport uuid contract distinct

  pull-IsSound :
      (now : Time) (w : World transport uuid) → Sound w → Sound (pull transport uuid now w).1
  unfolding pull Storage.set_last_sync_version
  pull-IsSound now w sound =
      let (server, l) = w in
      let since = l.store.last_sync_version in
      let ready = contract.pull-IsReady l.uuids since server sound.ready in
      elim (Result-cases (transport.pull since server).0) [
        | inr (x, e) ↦
            rw (e, pull) record { filed = sound.filed; ready = ready; fresh = sound.fresh }
        | inl (r, e) ↦
            let m = merge_all uuid now r.records l in
            let (filed, le, same) =
              merge_all-Grown uuid now r.records l l (sound.filed, omega arith, refl) in
            rw (e, pull)
              record {
                filed = filed;
                ready = contract.later-IsReady l.uuids m.uuids _ le ready;
                fresh =
                    IsFresh-weaken uuid l.uuids m.uuids m.store.pending_push le
                      (rw same sound.fresh);
              }
      ]

  cleared-IsSound :
      (key : String) (server : transport.Server) (l : Local)
      → Sound (server, l)
      → Sound (server, record l { store = Storage.clear_pending_push key l.store })
  unfolding Storage.clear_pending_push
  cleared-IsSound key server l sound = record {
    filed = sound.filed;
    ready = sound.ready;
    fresh = All-filter _ _ (is_other_batch key) l.store.pending_push (λ b f t. f) sound.fresh;
  }

  acknowledge-IsSound :
      (key : String) (resp : SyncPushResponse) (server : transport.Server) (l : Local)
      → Sound (server, l)
      → Sound (server, (acknowledge transport uuid key resp l).0)
        × ((acknowledge transport uuid key resp l).0.uuids ≡ l.uuids)
  unfolding acknowledge apply_push_results Storage.set_last_sync_version
  acknowledge-IsSound key resp server l sound =
      let (store, _) = apply_push_results resp l.store in
      (
        cleared-IsSound key server (record l { store = store })
            record {
              filed = store_results-IsFiled resp.results l.store sound.filed;
              ready = sound.ready;
              fresh = rw (store_results-pending_push resp.results l.store) sound.fresh;
            },
        refl,
      )

  replay_batch-IsSound :
      (batch : PendingBatch) (w : World transport uuid)
      → ((i : ℕ) → w.1.uuids ≤ i → uuid i ≢ batch.idempotency_key)
      → Sound w
      → Sound (replay_batch transport uuid batch w).1
        × ((replay_batch transport uuid batch w).1.1.uuids ≡ w.1.uuids)
  unfolding replay_batch Storage.clear_pending_push
  replay_batch-IsSound batch w fresh sound =
      let (server, l) = w in
      let key = batch.idempotency_key in
      elim (List-cases (replay_request transport uuid batch l.store)) [
        | inl e ↦ rw (e, replay_batch) (cleared-IsSound key server l sound, refl)
        | inr (dto, dtos, e) ↦
            let req : SyncPushRequest = record { records = dto ∷ dtos } in
            let answer = transport.push key req server in
            let asked : Sound (answer.1, l) = record {
              filed = sound.filed;
              ready =
                  contract.push-IsReady l.uuids l.uuids key req server (omega arith) fresh
                    sound.ready;
              fresh = sound.fresh;
            } in
            elim (Result-cases answer.0) [
              | inl (r, a) ↦ rw (e, replay_batch, a) (acknowledge-IsSound key r answer.1 l asked)
              | inr (x, a) ↦ rw (e, replay_batch, a) (asked, refl)
            ]
      ]

  replay_batches-IsSound :
      (batches : List PendingBatch) (w : World transport uuid)
      → All (λ (b : PendingBatch). (i : ℕ) → w.1.uuids ≤ i → uuid i ≢ b.idempotency_key) batches
      → Sound w
      → Sound (replay_batches transport uuid batches w).1
  unfolding replay_batches
  replay_batches-IsSound [] w fresh sound = sound
  replay_batches-IsSound (b ∷ bs) w fresh sound =
      let replayed = replay_batch transport uuid b w in
      let (after, same) = replay_batch-IsSound b w fresh.0 sound in
      elim (Result-cases replayed.0) [
        | inl (x, e) ↦
            rw (e, replay_batches)
              (replay_batches-IsSound bs replayed.1
                (IsFresh-weaken uuid w.1.uuids replayed.1.1.uuids bs (omega arith) fresh.1) after)
        | inr (x, e) ↦ rw (e, replay_batches) after
      ]

  rounds-reports :
      (n size : ℕ) (now : Time) (w : World transport uuid) (cs : List RecordDto)
      → Sound w
      → (rounds transport uuid n size now w).0 ≡ ok cs
      → cs ≡ remaining_conflicts (rounds transport uuid n size now w).1.1.store
  unfolding rounds remaining_conflicts
  rounds-reports zero size now w cs sound h = ground arith
  rounds-reports (suc n) size now w cs sound h =
      let pulled = pull transport uuid now w in
      let dirty = Storage.list_dirty pulled.1.1.store in
      let chunks = chunk_records dirty size in
      let pushed = push_all transport uuid chunks pulled.1 in
      let after = pull-IsSound now w sound in
      elim (Result-cases pulled.0) [
        | inr (x, e) ↦ absurd (ground arith)
        | inl (x, e) ↦ elim (List-cases dirty) [
          | inl none_left ↦ ground (arith, none_left)
          | inr (y, ys, some_left) ↦ elim (Result-cases pushed.0) [
            | inr (z, f) ↦ absurd (ground arith)
            | inl (false, f) ↦
                ground
                  (arith, push_all-clean transport uuid contract distinct size pulled.1 after f)
            | inl (true, f) ↦ ground (
              arith,
              rounds-reports n size now pushed.1 cs
                  (push_all-IsSound transport uuid contract distinct chunks pulled.1 true after f),
            )
          ]
        ]
      ]

  -- A synchronisation that ends without an error answers the records that are then still to be sent:
  -- so if it answers none, nothing is left to be sent. The records have to stand each once, under
  -- their ids, the ids that are drawn have to differ from each other and from the pending batches'
  -- keys, and the server has to keep to its contract and to know none of those ids as a key.
  pub sync-reports :
      (max_iterations chunk_size : ℕ) (now : Time) (w : World transport uuid) (cs : List RecordDto)
      → Sound w
      → (sync transport uuid max_iterations chunk_size now w).0 ≡ ok cs
      → cs ≡ remaining_conflicts (sync transport uuid max_iterations chunk_size now w).1.1.store
  unfolding replay_pending sync remaining_conflicts Storage.list_dirty Storage.set_last_sync_at
  sync-reports max_iterations chunk_size now w cs sound h =
      let replayed = replay_pending transport uuid w in
      let result = rounds transport uuid max_iterations chunk_size now replayed.1 in
      let started = replay_batches-IsSound w.1.store.pending_push w sound.fresh sound in
      elim (Result-cases replayed.0) [
        | inr (x, e) ↦ absurd (ground arith)
        | inl (x, e) ↦ elim (Result-cases result.0) [
          | inr (y, f) ↦ absurd (ground arith)
          | inl (ds, f) ↦
              ground (arith, rounds-reports max_iterations chunk_size now replayed.1 ds started f)
        ]
      ]
