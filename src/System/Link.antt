-- ===== src/System/Link.antt =====
-- The client's synchronisation on the server's service and its stores in memory: what
-- internal/client/service/syncer.go calls, answered by internal/server/service/sync.go for one user.
-- The server runs at one reading of the clock. HTTP between them is left out.
use voldepass.Prelude.{
  ℕ, ◌≤◌, String, ◌≡◌, ◌≢◌, refl, sym, ◌∙◌, ap, true, false, none, List, [], ◌∷◌, arith, inl, inr,
  ◌⊎◌, Bool-cases,
}
use voldepass.GoMap.{lookup}
use voldepass.GoMap.Laws.{lookup-insert_ne, lookup-delete}
use voldepass.Domain.{
  Time, RecordDto, SyncPushRequest, SyncPushResponse, PushResult, Result, ok, err, Result-cases,
  Record, Error, not_found, applied, conflicted,
}
use voldepass.Server.Ports.{saved, stale, failed, Upserted}
use voldepass.Server.Inmem.Records
use voldepass.Server.Inmem.Idempotency
use voldepass.Server.Inmem.Idempotency.Keys.{entry_key_injective}
use voldepass.Server.Service.Sync
use voldepass.Server.Service.Sync.{
  Codec, push_records, dto_to_record, record_to_dto, finish, then_results,
}
use voldepass.Client.Syncer.Run.{Transport}
use voldepass.Client.Syncer.Local.{had_conflicts}
use voldepass.Client.Syncer.Dirty.{is_requested, is_reported}
use voldepass.Client.Syncer.Contract.{Contract}

module _ (now : Time) (owner_id : String) (codec : Codec) where
  -- What a client of this user sees of the server.
  abbrev pub link : Transport
  link = record {
    Server = Sync.State Records.port Idempotency.port codec;
    pull = λ since s. (Sync.pull Records.port owner_id since s.0, s);
    push = λ key req s. Sync.push Records.port Idempotency.port codec now owner_id key req s;
  }

  -- Nothing is stored under the ids from the n-th on.
  abbrev pub IsReady : (ℕ → String) → ℕ → link.Server → Type 0
  IsReady uuid n s =
      (i : ℕ) → n ≤ i → lookup (Idempotency.entry_key owner_id (uuid i)) s.1.entries ≡ none

  get-IsReady :
      (uuid : ℕ → String) (n : ℕ) (key : String) (s : link.Server)
      → IsReady uuid n s
      → IsReady uuid n (s.0, (Idempotency.get now owner_id key s.1).1)
  unfolding Idempotency.get
  get-IsReady uuid n key s ready = λ i le. ground (
    arith,
    ready i le,
    lookup-delete (Idempotency.entry_key owner_id key) (Idempotency.entry_key owner_id (uuid i))
        s.1.entries,
  )

  finish-IsReady :
      (uuid : ℕ → String) (m : ℕ) (key : String) (results : Result (List PushResult))
      (s : link.Server)
      → ((i : ℕ) → m ≤ i → uuid i ≢ key)
      → IsReady uuid m s
      → IsReady uuid m (finish Records.port Idempotency.port codec now owner_id key results s).1
  unfolding finish Idempotency.save
  finish-IsReady uuid m key (err e) s other ready = ready
  finish-IsReady uuid m key (ok results) s other ready =
      elim (Result-cases (codec.marshal (record { results = results }))) [
        | inr (e, h) ↦ rw (h, finish) ready
        | inl (b, h) ↦
            rw (h, finish)
              λ i le.
                lookup-insert_ne (Idempotency.entry_key owner_id key)
                  (Idempotency.entry_key owner_id (uuid i)) _ s.1.entries
                  (λ e.
                    other i le (entry_key_injective owner_id owner_id (uuid i) key refl (sym e)).1)
                ∙ ready i le
      ]

  push-IsReady :
      (uuid : ℕ → String) (n m : ℕ) (key : String) (req : SyncPushRequest) (s : link.Server)
      → n ≤ m
      → ((i : ℕ) → m ≤ i → uuid i ≢ key)
      → IsReady uuid n s
      → IsReady uuid m (link.push key req s).1
  unfolding Sync.push
  push-IsReady uuid n m key req s le other ready =
      let asked = get-IsReady uuid m key s (λ i h. ready i (omega arith)) in
      let results = push_records Records.port now owner_id req.records s.0 in
      let end =
        finish-IsReady uuid m key results.0 (results.1, (Idempotency.get now owner_id key s.1).1)
          other asked in
      λ i h. ground (arith, asked i h, end i h)

  upsert-id :
      (rec x : Record) (base : ℕ) (r : Records.Repository)
      → (Records.upsert now rec base r).0 ≡ saved x
      → x.id ≡ rec.id
  unfolding Records.upsert Records.write
  upsert-id rec x base r h = ground arith

  Upserted-cases :
      (u : Upserted)
      → ((x : Record) × (u ≡ saved x))
        ⊎ ((x : Record) × (u ≡ stale x))
        ⊎ ((e : Error) × (u ≡ failed e))
  Upserted-cases (saved x) = inl (x, refl)
  Upserted-cases (stale x) = inr (inl (x, refl))
  Upserted-cases (failed e) = inr (inr (e, refl))

  then_results-ok :
      (p : PushResult) (result : Result (List PushResult) × Records.Repository)
      (rs : List PushResult)
      → (then_results Records.port p result).0 ≡ ok rs
      → (qs : List PushResult) × (result.0 ≡ ok qs) × (p ∷ qs ≡ rs)
  then_results-ok p (ok qs, r) rs h = (qs, refl, ground arith)
  then_results-ok p (err e, r) rs h = absurd (ground arith)

  -- If no record of a batch is refused, each one is reported.
  push_records-reports :
      (k : String) (dtos : List RecordDto) (r : Records.Repository) (rs : List PushResult)
      → (push_records Records.port now owner_id dtos r).0 ≡ ok rs
      → had_conflicts rs ≡ false
      → is_requested k dtos ≡ true
      → is_reported k rs ≡ true
  unfolding push_records had_conflicts is_requested is_reported dto_to_record record_to_dto
  push_records-reports k [] r rs h c q = absurd (ground arith)
  push_records-reports k (dto ∷ dtos) r rs h c q =
      let rec = dto_to_record dto owner_id in
      let upserted = Records.upsert now rec dto.base_version r in
      let rest = push_records Records.port now owner_id dtos upserted.1 in
      elim (Upserted-cases upserted.0) [
        | inl (x, e) ↦
            let p : PushResult = record {
              id = dto.id;
              status = applied;
              server_record = record_to_dto x;
            } in
            let (qs, f, g) = then_results-ok p rest rs (rw (push_records, e) at h) in
            let same = upsert-id rec x dto.base_version r e in
            let quiet : had_conflicts (p ∷ qs) ≡ false = ap had_conflicts g ∙ c in
            let goal : is_reported k (p ∷ qs) ≡ true = elim (Bool-cases (is_requested k dtos)) [
              | inl t ↦ ground (arith, push_records-reports k dtos upserted.1 qs f quiet t)
              | inr n ↦ rw same ground arith
            ] in
            sym (ap (is_reported k) g) ∙ goal
        | inr (inl (x, e)) ↦
            let p : PushResult = record {
              id = dto.id;
              status = conflicted;
              server_record = record_to_dto x;
            } in
            let (qs, f, g) = then_results-ok p rest rs (rw (push_records, e) at h) in
            absurd (ground arith)
        | inr (inr (x, e)) ↦ absurd (ground arith)
      ]

  finish-ok :
      (key : String) (results : Result (List PushResult)) (s : link.Server)
      (resp : SyncPushResponse)
      → (finish Records.port Idempotency.port codec now owner_id key results s).0 ≡ ok resp
      → results ≡ ok resp.results
  unfolding finish
  finish-ok key (err e) s resp h = absurd (ground arith)
  finish-ok key (ok results) s resp h =
      elim (Result-cases (codec.marshal (record { results = results }))) [
        | inr (e, f) ↦ absurd (ground arith)
        | inl (b, f) ↦ ground arith
      ]

  get-missing :
      (key : String) (s : link.Server)
      → lookup (Idempotency.entry_key owner_id key) s.1.entries ≡ none
      → (Idempotency.get now owner_id key s.1).0 ≡ err not_found
  unfolding Idempotency.get
  get-missing key s h = ground arith

  -- The service keeps what the synchronisation relies on.
  pub contract : (uuid : ℕ → String) → Contract link uuid
  unfolding Sync.push
  contract uuid = record {
    IsReady = IsReady uuid;
    later-IsReady = λ n m s le ready i h. ready i (omega arith);
    pull-IsReady = λ n since s ready. ready;
    push-IsReady = push-IsReady uuid;
    reports = λ n k req s resp ready h c q.
        let results = push_records Records.port now owner_id req.records s.0 in
        let missing : (Idempotency.get now owner_id (uuid n) s.1).0 ≡ err not_found =
          get-missing (uuid n) s (ready n (omega arith)) in
        push_records-reports k req.records s.0 resp.results
          (finish-ok (uuid n) results.0 (results.1, (Idempotency.get now owner_id (uuid n) s.1).1)
            resp (ground (arith, missing)))
          c q;
  }

  pub contract-IsReady :
      (uuid : ℕ → String) (n : ℕ) (s : link.Server) → IsReady uuid n s → (contract uuid).IsReady n s
  unfolding contract
  contract-IsReady uuid n s ready = ready
