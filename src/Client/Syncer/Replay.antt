-- ===== src/Client/Syncer/Replay.antt =====
-- Sending again what was pending when a synchronisation broke off.
use voldepass.Prelude.{
  ℕ, String, Bool, ◌≡◌, refl, ◌∙◌, true, false, some, List, [], ◌∷◌, arith, All, filter, eq_iff,
  eq_refl, subst, ◌==◌, dec_true, List-cases, inl, inr, ◌||◌,
}
use voldepass.GoMap.{lookup}
use voldepass.Domain.{RecordDto, SyncPushResponse, Result, ok, err, Result-cases}
use voldepass.Client.Storage
use voldepass.Client.Storage.{StoredRecord, PendingBatch, is_other_batch}
use voldepass.Client.Syncer.Local.{clean, apply_push_results}
use voldepass.Client.Syncer.Push.{applied_record, lookup-store_results}
use voldepass.Client.Syncer.Pending.{pending, acknowledge-pending}
use voldepass.Client.Syncer.Run.{
  Transport, World, acknowledge, replay_request, replay_batch, replay_batches, replay_pending,
}

clear : String → List PendingBatch → List PendingBatch
clear key bs = filter (λ b. dec_true (is_other_batch key b)) bs

clear_all : List PendingBatch → List PendingBatch → List PendingBatch
clear_all [] ps = ps
clear_all (b ∷ bs) ps = clear_all bs (clear b.idempotency_key ps)

is_listed : String → List PendingBatch → Bool
is_listed key [] = false
is_listed key (b ∷ bs) = b.idempotency_key == key || is_listed key bs

abbrev AreListed : List PendingBatch → List PendingBatch → Type 0
AreListed bs = All (λ (p : PendingBatch). is_listed p.idempotency_key bs ≡ true)

clear-AreListed :
    (b : PendingBatch) (bs ps : List PendingBatch)
    → AreListed (b ∷ bs) ps
    → AreListed bs (clear b.idempotency_key ps)
unfolding clear is_listed
clear-AreListed b bs [] h = tt
clear-AreListed b bs (p ∷ ps) h = ground (
  arith,
  clear-AreListed b bs ps h.1,
  eq_iff b.idempotency_key p.idempotency_key,
  eq_iff p.idempotency_key b.idempotency_key,
)

clear_all-AreListed : (bs ps : List PendingBatch) → AreListed bs ps → clear_all bs ps ≡ []
unfolding clear_all is_listed
clear_all-AreListed [] [] h = refl
clear_all-AreListed [] (p ∷ ps) h = absurd (ground arith)
clear_all-AreListed (b ∷ bs) ps h =
    clear_all-AreListed bs (clear b.idempotency_key ps) (clear-AreListed b bs ps h)

AreListed-cons :
    (b : PendingBatch) (bs ps : List PendingBatch) → AreListed bs ps → AreListed (b ∷ bs) ps
unfolding is_listed
AreListed-cons b bs [] h = tt
AreListed-cons b bs (p ∷ ps) h = (ground arith, AreListed-cons b bs ps h.1)

AreListed-self : (bs : List PendingBatch) → AreListed bs bs
unfolding is_listed
AreListed-self [] = tt
AreListed-self (b ∷ bs) =
    (ground (arith, eq_refl b.idempotency_key), AreListed-cons b bs bs (AreListed-self bs))

module _ (transport : Transport) (uuid : ℕ → String) where
  -- A step of the replay either fails, or leaves these batches pending.
  abbrev Ends : List PendingBatch → Result (Unit {0}) × World transport uuid → Type 0
  Ends ps (ok _, w) = pending transport uuid w ≡ ps
  Ends ps (err _, w) = Unit

  replay_batch-Ends :
      (batch : PendingBatch) (w : World transport uuid)
      → Ends
          (clear batch.idempotency_key (pending transport uuid w))
          (replay_batch transport uuid batch w)
  unfolding replay_batch replay_request clear Storage.clear_pending_push
  replay_batch-Ends batch w = elim (List-cases (replay_request transport uuid batch w.1.store)) [
    | inl e ↦ rw (e, replay_batch) refl
    | inr (dto, dtos, e) ↦
        let answer = transport.push batch.idempotency_key (record { records = dto ∷ dtos }) w.0 in
        elim (Result-cases answer.0) [
          | inl (r, a) ↦
              rw (e, replay_batch, a)
                (acknowledge-pending transport uuid batch.idempotency_key r w.1)
          | inr (x, a) ↦ rw (e, replay_batch, a) tt
        ]
  ]

  Ends-cons :
      (ps qs : List PendingBatch) (replayed others : Result (Unit {0}) × World transport uuid)
      → Ends ps replayed
      → (pending transport uuid replayed.1 ≡ ps → Ends qs others)
      → Ends qs (elim replayed.0 [ err e ↦ (err e, replayed.1) | ok _ ↦ others ])
  Ends-cons ps qs (err e, w) others here later = tt
  Ends-cons ps qs (ok x, w) others here later = later here

  replay_batches-Ends :
      (batches : List PendingBatch) (w : World transport uuid)
      → Ends
          (clear_all batches (pending transport uuid w))
          (replay_batches transport uuid batches w)
  unfolding replay_batches clear_all
  replay_batches-Ends [] w = refl
  replay_batches-Ends (b ∷ bs) w =
      let replayed = replay_batch transport uuid b w in
      let before = pending transport uuid w in
      Ends-cons (clear b.idempotency_key before) (clear_all bs (clear b.idempotency_key before))
        replayed (replay_batches transport uuid bs replayed.1) (replay_batch-Ends b w)
        (λ same.
          subst (λ ps. Ends (clear_all bs ps) (replay_batches transport uuid bs replayed.1)) same
            (replay_batches-Ends bs replayed.1))

  Ends-ok :
      (ps : List PendingBatch) (result : Result (Unit {0}) × World transport uuid)
      → Ends ps result
      → result.0 ≡ ok tt
      → pending transport uuid result.1 ≡ ps
  Ends-ok ps (ok x, w) h e = h
  Ends-ok ps (err x, w) h e = absurd (ground arith)

  -- A replay that succeeds leaves no batch pending.
  pub replay_pending-empty :
      (w : World transport uuid)
      → (replay_pending transport uuid w).0 ≡ ok tt
      → (replay_pending transport uuid w).1.1.store.pending_push ≡ []
  unfolding replay_pending
  replay_pending-empty w done =
      Ends-ok _ (replay_batches transport uuid w.1.store.pending_push w)
        (replay_batches-Ends w.1.store.pending_push w) done
      ∙ clear_all-AreListed w.1.store.pending_push w.1.store.pending_push
          (AreListed-self w.1.store.pending_push)

  -- A replay takes the server's answer for the last word: for a batch of which some record is still
  -- there, a record that the answer calls applied becomes what the answer carries, as synchronised, whatever
  -- the record under that id is at that time, an edit made after the batch was first sent included.
  pub replay_batch-overwrites :
      (batch : PendingBatch) (w : World transport uuid) (dto : RecordDto) (dtos : List RecordDto)
      (resp : SyncPushResponse) (k : String) (sent : RecordDto)
      → replay_request transport uuid batch w.1.store ≡ dto ∷ dtos
      → (transport.push batch.idempotency_key (record { records = dto ∷ dtos }) w.0).0 ≡ ok resp
      → applied_record k resp.results ≡ some sent
      → lookup k (replay_batch transport uuid batch w).1.1.store.records ≡ some (clean sent)
  unfolding replay_batch acknowledge apply_push_results Storage.set_last_sync_version
      Storage.clear_pending_push
  replay_batch-overwrites batch w dto dtos resp k sent request answer there =
      rw (request, replay_batch, answer) (rw (lookup-store_results, there) refl)
