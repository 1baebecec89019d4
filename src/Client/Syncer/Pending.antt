-- ===== src/Client/Syncer/Pending.antt =====
-- The pending batches: what is kept across an error, so that a retry can use the same key.
use mathlib.Core.List.{mem-cons_self, mem-cons_of_mem}
use voldepass.Prelude.{
  map, ℕ, suc, String, Bool, ◌≡◌, refl, ◌∙◌, ap, List, [], ◌∷◌, ◌++◌, arith, Mem, filter, subst,
  dec_true, inl, inr,
}
use voldepass.Domain.{SyncPushResponse, Result, ok, err, Result-cases}
use voldepass.Client.Storage
use voldepass.Client.Storage.{StoredRecord, PendingBatch, is_other_batch}
use voldepass.Client.Syncer.Local.{Local, record_ids, apply_push_results}
use voldepass.Client.Syncer.Push.{
  IsFresh, IsFresh-weaken, cleared-added, store_results-pending_push,
}
use voldepass.Client.Syncer.Run.{Transport, World, push_chunk, push_all, acknowledge, or_conflicts}

module _ (transport : Transport) (uuid : ℕ → String) where
  abbrev pub pending : World transport uuid → List PendingBatch
  pending w = w.1.store.pending_push

  pub acknowledge-pending :
      (key : String) (resp : SyncPushResponse) (l : Local)
      → (acknowledge transport uuid key resp l).0.store.pending_push
        ≡ filter (λ b. dec_true (is_other_batch key b)) l.store.pending_push
  unfolding acknowledge apply_push_results Storage.set_last_sync_version Storage.clear_pending_push
  acknowledge-pending key resp l =
      ap (filter (λ b. dec_true (is_other_batch key b)))
        (store_results-pending_push resp.results l.store)

  -- What a chunk that is sent leaves pending: nothing more on success, the chunk on an error.
  abbrev pub Left :
      List PendingBatch → List (List StoredRecord) → Result Bool × World transport uuid → Type 0
  Left before chunks (ok _, w) = pending w ≡ before
  Left before chunks (err _, w) =
      (chunk : List StoredRecord) × (key : String) × Mem chunk chunks
      × (pending w ≡ before ++ record { idempotency_key = key; record_ids = record_ids chunk } ∷ [])

  pub Left-ok :
      (before : List PendingBatch) (chunks : List (List StoredRecord)) (b : Bool)
      (result : Result Bool × World transport uuid)
      → Left before chunks result
      → result.0 ≡ ok b
      → pending result.1 ≡ before
  Left-ok before chunks b (ok c, w) h e = h
  Left-ok before chunks b (err x, w) h e = absurd (ground arith)

  pub push_chunk-pending :
      (chunk : List StoredRecord) (rest : List (List StoredRecord)) (w : World transport uuid)
      → IsFresh uuid w.1
      → let result = push_chunk transport uuid chunk w in
        Left (pending w) (chunk ∷ rest) result × (result.1.1.uuids ≡ suc w.1.uuids)
  unfolding push_chunk acknowledge Storage.add_pending_push
  push_chunk-pending chunk rest w fresh =
      let key = uuid w.1.uuids in
      let batch : PendingBatch = record { idempotency_key = key; record_ids = record_ids chunk } in
      let l1 : Local = record {
        store = Storage.add_pending_push batch w.1.store;
        uuids = suc w.1.uuids;
      } in
      let dtos = map (λ (r : StoredRecord). r.dto) chunk in
      elim (Result-cases (transport.push key (record { records = dtos }) w.0).0) [
        | inl (r, e) ↦
            rw (e, push_chunk)
              (
                acknowledge-pending key r l1
                    ∙ cleared-added uuid w.1.uuids batch (pending w) refl fresh,
                refl,
              )
        | inr (x, e) ↦ rw (e, push_chunk) ((chunk, key, mem-cons_self, refl), refl)
      ]

  -- One chunk and the others, as pushAll puts them together.
  Left-cons :
      (before : List PendingBatch) (chunk : List StoredRecord) (rest : List (List StoredRecord))
      (pushed others : Result Bool × World transport uuid)
      → Left before (chunk ∷ rest) pushed
      → (pending pushed.1 ≡ before → Left before rest others)
      → Left before (chunk ∷ rest) (elim pushed.0 [
        | err e ↦ (err e, pushed.1)
        | ok b ↦ or_conflicts transport uuid b others
      ])
  Left-cons before chunk rest (err e, w) others here later = here
  Left-cons before chunk rest (ok b, w) (ok c, w') here later = later here
  Left-cons before chunk rest (ok b, w) (err e, w') here later =
      let (c, key, m, q) = later here in (c, key, mem-cons_of_mem chunk m, q)

  -- After a push of all chunks that succeeded, the batches that were pending before are pending,
  -- and no other; if the push failed, one batch more is pending, that of one of the chunks. The
  -- keys that are drawn have to differ from those of the batches that are pending before.
  pub push_all-pending :
      (chunks : List (List StoredRecord)) (w : World transport uuid)
      → IsFresh uuid w.1
      → Left (pending w) chunks (push_all transport uuid chunks w)
  unfolding push_all
  push_all-pending [] w fresh = refl
  push_all-pending (chunk ∷ rest) w fresh =
      let pushed = push_chunk transport uuid chunk w in
      let (here, drawn) = push_chunk-pending chunk rest w fresh in
      Left-cons (pending w) chunk rest pushed (push_all transport uuid rest pushed.1) here (λ same.
        subst (λ b. Left b rest (push_all transport uuid rest pushed.1)) same
          (push_all-pending rest pushed.1 (
            IsFresh-weaken uuid w.1.uuids pushed.1.1.uuids (pending pushed.1) (omega arith)
              (rw same fresh))))
