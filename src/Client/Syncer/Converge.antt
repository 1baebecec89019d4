-- ===== src/Client/Syncer/Converge.antt =====
-- What Sync reports is what is still to be sent.
use voldepass.Prelude.{
  ℕ, suc, ◌≤◌, String, Bool, ◌≡◌, ◌≢◌, refl, ◌∙◌, ap, true, false, ◌||◌, some, List, [], ◌∷◌, arith,
  inl, inr, map, Bool-cases, Option-cases, List-cases,
}
use voldepass.GoMap.{lookup}
use voldepass.Domain.{SyncPushResponse, PushResult, Result, ok, err, Result-cases}
use voldepass.Client.Storage
use voldepass.Client.Storage.{StoredRecord, PendingBatch}
use voldepass.Client.Syncer.Local.{had_conflicts, store_results, apply_push_results, chunk_records}
use voldepass.Client.Syncer.Chunks.{chunk_records_lem}
use voldepass.Client.Syncer.Merge.{IsInjective}
use voldepass.Client.Syncer.Push.{IsFresh, IsFresh-weaken, applied_record, lookup-store_results}
use voldepass.Client.Syncer.Pending.{pending, push_chunk-pending, Left-ok}
use voldepass.Client.Syncer.Dirty.{
  IsFiled, store_results-IsFiled, store_results-records, is_reported, is_listed, is_chunked,
  is_requested-map, is_listed-flatten, is_listed-list_dirty, list_dirty-found,
  applied_record-reported,
}
use voldepass.Client.Syncer.Contract.{Contract}
use voldepass.Client.Syncer.Run.{Transport, World, push_chunk, push_all, or_conflicts, acknowledge}

module _ (transport : Transport) (uuid : ℕ → String) (contract : Contract transport uuid)
    (distinct : IsInjective uuid) where
  -- The local store is in order, and the server and the pending batches leave the ids to be drawn free.
  pub record IsSound (w : World transport uuid) : Type 0 where
    pub filed : IsFiled w.1.store.records
    pub ready : contract.IsReady w.1.uuids w.0
    pub fresh : IsFresh uuid w.1

  abbrev StillDirty : String → Storage.State → Type 0
  StillDirty k s = (x : StoredRecord) × (lookup k s.records ≡ some x) × (x.dirty ≡ true)

  -- After an answer without conflicts, a record that is still to be sent was so before, and the
  -- answer does not report it.
  results-dirty :
      (k : String) (ps : List PushResult) (s : Storage.State)
      → had_conflicts ps ≡ false
      → StillDirty k (store_results ps s)
      → StillDirty k s × (is_reported k ps ≡ false)
  results-dirty k ps s none_refused (x, found, d) =
      let stored = lookup-store_results k ps s in
      elim (Bool-cases (is_reported k ps)) [
        | inl t ↦
            let (dto, e) = applied_record-reported k ps none_refused t in
            absurd (ground (arith, stored))
        | inr f ↦ elim (Option-cases (applied_record k ps)) [
          | inl e ↦ ((x, ground (arith, stored), d), f)
          | inr (dto, e) ↦ absurd (ground (arith, stored))
        ]
      ]

  -- The answer to a chunk that was pushed without an error.
  Answered : List StoredRecord → World transport uuid → Bool → Type 0
  Answered chunk w b =
      (resp : SyncPushResponse) × ((transport.push (uuid w.1.uuids)
          (record { records = map (λ (r : StoredRecord). r.dto) chunk }) w.0).0
        ≡ ok resp)
      × (had_conflicts resp.results ≡ b)
      × ((push_chunk transport uuid chunk w).1.1.store.records
          ≡ (store_results resp.results w.1.store).records)

  push_chunk-Answered :
      (chunk : List StoredRecord) (w : World transport uuid) (b : Bool)
      → (push_chunk transport uuid chunk w).0 ≡ ok b
      → Answered chunk w b
  unfolding Answered push_chunk acknowledge apply_push_results Storage.add_pending_push
      Storage.clear_pending_push Storage.set_last_sync_version
  push_chunk-Answered chunk w b h =
      let dtos = map (λ (r : StoredRecord). r.dto) chunk in
      elim (Result-cases (transport.push (uuid w.1.uuids) (record { records = dtos }) w.0).0) [
        | inl (r, e) ↦
            (r, e, ground arith, rw (e, push_chunk) (store_results-records r.results _ _ refl))
        | inr (x, e) ↦ absurd (ground arith)
      ]

  push_chunk-server :
      (chunk : List StoredRecord) (w : World transport uuid)
      → (push_chunk transport uuid chunk w).1.0
        ≡ (transport.push
            (uuid w.1.uuids)
            (record { records = map (λ (r : StoredRecord). r.dto) chunk })
            w.0).1
  unfolding push_chunk
  push_chunk-server chunk w = ground arith

  push_chunk-IsSound :
      (chunk : List StoredRecord) (w : World transport uuid) (b : Bool)
      → IsSound w
      → (push_chunk transport uuid chunk w).0 ≡ ok b
      → IsSound (push_chunk transport uuid chunk w).1
  unfolding Answered
  push_chunk-IsSound chunk w b sound h =
      let result = push_chunk transport uuid chunk w in
      let (resp, e, _, stored) = push_chunk-Answered chunk w b h in
      let (left, drawn) = push_chunk-pending transport uuid chunk [] w sound.fresh in
      let same = Left-ok transport uuid (pending transport uuid w) (chunk ∷ []) b result left h in
      let others : (i : ℕ) → suc w.1.uuids ≤ i → uuid i ≢ uuid w.1.uuids =
        λ i le q. absurd (omega (arith, distinct i w.1.uuids q)) in
      record {
        filed = rw stored (store_results-IsFiled resp.results w.1.store sound.filed);
        ready =
            rw (push_chunk-server, drawn)
              (contract.push-IsReady w.1.uuids (suc w.1.uuids) (uuid w.1.uuids) _ w.0 (omega arith)
                others sound.ready);
        fresh =
            IsFresh-weaken uuid w.1.uuids result.1.1.uuids (pending transport uuid result.1)
              (omega arith) (rw same sound.fresh);
      }

  push_chunk-dirty :
      (k : String) (chunk : List StoredRecord) (w : World transport uuid)
      → IsSound w
      → (push_chunk transport uuid chunk w).0 ≡ ok false
      → StillDirty k (push_chunk transport uuid chunk w).1.1.store
      → StillDirty k w.1.store × (is_listed k chunk ≡ false)
  unfolding Answered
  push_chunk-dirty k chunk w sound h (x, found, d) =
      let (resp, e, taken, stored) = push_chunk-Answered chunk w false h in
      let held : lookup k (store_results resp.results w.1.store).records ≡ some x =
        rw (← stored) found in
      let (before, unreported) = results-dirty k resp.results w.1.store taken (x, held, d) in
      let asked = contract.reports w.1.uuids k _ w.0 resp sound.ready e taken in
      (before, ground (arith, asked, is_requested-map k chunk))

  or_conflicts-ok :
      (b c : Bool) (others : Result Bool × World transport uuid)
      → (or_conflicts transport uuid b others).0 ≡ ok c
      → ((d : Bool) × (others.0 ≡ ok d) × ((b || d) ≡ c))
        × ((or_conflicts transport uuid b others).1 ≡ others.1)
  or_conflicts-ok b c (ok d, w) h = ((d, refl, ground arith), refl)
  or_conflicts-ok b c (err x, w) h = absurd (ground arith)

  -- A push of several chunks that ended without an error, taken apart.
  push_all-cons :
      (chunk : List StoredRecord) (rest : List (List StoredRecord)) (w : World transport uuid)
      (c : Bool)
      → (push_all transport uuid (chunk ∷ rest) w).0 ≡ ok c
      → let pushed = push_chunk transport uuid chunk w in
        let others = push_all transport uuid rest pushed.1 in
        (b : Bool) × (d : Bool) × (pushed.0 ≡ ok b)
        × (others.0 ≡ ok d)
        × ((b || d) ≡ c)
        × ((push_all transport uuid (chunk ∷ rest) w).1 ≡ others.1)
  unfolding push_all
  push_all-cons chunk rest w c h =
      let pushed = push_chunk transport uuid chunk w in
      let others = push_all transport uuid rest pushed.1 in
      elim (Result-cases pushed.0) [
        | inr (x, e) ↦ absurd (ground arith)
        | inl (b, e) ↦
            let joined : push_all transport uuid (chunk ∷ rest) w
                ≡ or_conflicts transport uuid b others =
              rw (e, push_all) refl in
            let ((d, f, g), same) = or_conflicts-ok b c others (rw (← joined) h) in
            (b, d, e, f, g, ap (λ (t : Result Bool × World transport uuid). t.1) joined ∙ same)
      ]

  pub push_all-IsSound :
      (chunks : List (List StoredRecord)) (w : World transport uuid) (c : Bool)
      → IsSound w
      → (push_all transport uuid chunks w).0 ≡ ok c
      → IsSound (push_all transport uuid chunks w).1
  push_all-IsSound [] w c sound h = unfold push_all in sound
  push_all-IsSound (chunk ∷ rest) w c sound h =
      let (b, d, e, f, _, same) = push_all-cons chunk rest w c h in
      let pushed = push_chunk transport uuid chunk w in
      rw same (push_all-IsSound rest pushed.1 d (push_chunk-IsSound chunk w b sound e) f)

  -- After a push without conflicts, what is still to be sent was so before and is in no chunk.
  pub push_all-dirty :
      (k : String) (chunks : List (List StoredRecord)) (w : World transport uuid)
      → IsSound w
      → (push_all transport uuid chunks w).0 ≡ ok false
      → StillDirty k (push_all transport uuid chunks w).1.1.store
      → StillDirty k w.1.store × (is_chunked k chunks ≡ false)
  unfolding is_chunked
  push_all-dirty k [] w sound h d = unfold push_all in (d, refl)
  push_all-dirty k (chunk ∷ rest) w sound h d =
      let (b, c, e, f, quiet, same) = push_all-cons chunk rest w false h in
      let pushed = push_chunk transport uuid chunk w in
      let one : pushed.0 ≡ ok false = ground (arith, e, quiet) in
      let all : (push_all transport uuid rest pushed.1).0 ≡ ok false = ground (arith, f, quiet) in
      let (after, not_rest) =
        push_all-dirty k rest pushed.1 (push_chunk-IsSound chunk w false sound one) all
          (rw same at d) in
      let (before, not_here) = push_chunk-dirty k chunk w sound one after in
      (before, ground (arith, not_here, not_rest))

  -- A push without conflicts of all that is to be sent leaves nothing to be sent.
  pub push_all-clean :
      (size : ℕ) (w : World transport uuid)
      → IsSound w
      → let chunks = chunk_records (Storage.list_dirty w.1.store) size in
        (push_all transport uuid chunks w).0 ≡ ok false
        → Storage.list_dirty (push_all transport uuid chunks w).1.1.store ≡ []
  unfolding Storage.list_dirty
  push_all-clean size w sound h =
      let dirty = Storage.list_dirty w.1.store in
      let chunks = chunk_records dirty size in
      let after = (push_all transport uuid chunks w).1 in
      elim (List-cases (Storage.list_dirty after.1.store)) [
        | inl e ↦ e
        | inr (y, ys, e) ↦
            let unique = (push_all-IsSound chunks w false sound h).filed.unique in
            let (k, x, found, d) = list_dirty-found after.1.store.records y ys unique e in
            let ((x', found', d'), unchunked) = push_all-dirty k chunks w sound h (x, found, d) in
            let listed = is_listed-list_dirty k x' w.1.store.records sound.filed.filed found' d' in
            let whole = (chunk_records_lem dirty size).0 in
            let chunked = is_listed-flatten k chunks in
            absurd (ground (arith, unchunked, chunked, listed, ap (is_listed k) whole))
      ]
