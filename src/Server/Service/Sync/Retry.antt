-- ===== src/Server/Service/Sync/Retry.antt =====
-- A retried push gives the same answer and applies nothing again.
use voldepass.Prelude.{String, ◌≡◌, ◌+◌, ◌≤◌, arith, inl, inr, List, refl}
use voldepass.Domain.{
  Bytes, Time, Result, ok, err, not_found, Result-cases, PushResult, SyncPushRequest,
  SyncPushResponse,
}
use voldepass.Server.Ports.{RecordRepository, IdempotencyStore}
use voldepass.Server.Service.Sync.{Codec, State, push, push_records, finish, idempotency_ttl}

-- What encoding/json gives back is what it was given.
abbrev pub RoundTrips : Codec → Type 0
RoundTrips codec =
    (r : SyncPushResponse) (b : Bytes) → codec.marshal r ≡ ok b → codec.unmarshal b ≡ ok r

module _ (records : RecordRepository) (idempotency : IdempotencyStore) (codec : Codec) where
  -- What a push that was answered has left in the idempotency store.
  finish-saved :
      (now later : Time) (owner_id key : String) (results : Result (List PushResult))
      (s : State records idempotency codec) (resp : SyncPushResponse)
      → (finish records idempotency codec now owner_id key results s).0 ≡ ok resp
      → later ≤ now + idempotency_ttl
      → let s' = (finish records idempotency codec now owner_id key results s).1 in
        (b : Bytes) × (codec.marshal resp ≡ ok b)
        × ((idempotency.get later owner_id key s'.1).0 ≡ ok b)
  unfolding finish
  finish-saved now later owner_id key (err e) s resp h l = cc
  finish-saved now later owner_id key (ok rs) s resp h l =
      elim (Result-cases (codec.marshal (record { results = rs }))) [
        | inr (e, m) ↦ absurd (ground arith)
        | inl (b, m) ↦
            elim (Result-cases (idempotency.save now owner_id key b idempotency_ttl s.1).0) [
              | inr (e, w) ↦ absurd (ground arith)
              | inl (u, w) ↦
                  let law = idempotency.get-save now later owner_id key b idempotency_ttl s.1 w l in
                  (b, ground arith, ground arith)
            ]
      ]

  push-cached :
      (now : Time) (owner_id key : String) (req : SyncPushRequest) (b : Bytes)
      (s : State records idempotency codec)
      → (idempotency.get now owner_id key s.1).0 ≡ ok b
      → push records idempotency codec now owner_id key req s
        ≡ (codec.unmarshal b, (s.0, (idempotency.get now owner_id key s.1).1))
  unfolding push
  push-cached now owner_id key req b s e = ground arith

  -- A push that was answered, and that found no result under its key, is answered the same when it
  -- is sent again under that key by the same user within the time to live of the result, whatever
  -- the second request holds; the second push leaves the records as they are.
  pub push_retry :
      (now later : Time) (owner_id key : String) (req again : SyncPushRequest)
      (s : State records idempotency codec) (resp : SyncPushResponse)
      → RoundTrips codec
      → (idempotency.get now owner_id key s.1).0 ≡ err not_found
      → (push records idempotency codec now owner_id key req s).0 ≡ ok resp
      → later ≤ now + idempotency_ttl
      → let s' = (push records idempotency codec now owner_id key req s).1 in
        ((push records idempotency codec later owner_id key again s').0 ≡ ok resp)
        × ((push records idempotency codec later owner_id key again s').1.0 ≡ s'.0)
  push_retry now later owner_id key req again s resp trips new answered h =
      let pushed = push_records records now owner_id req.records s.0 in
      let s0 : State records idempotency codec =
        (pushed.1, (idempotency.get now owner_id key s.1).1) in
      let first : push records idempotency codec now owner_id key req s
          ≡ finish records idempotency codec now owner_id key pushed.0 s0 =
        unfold push in ground arith in
      let (b, m, found) =
        finish-saved now later owner_id key pushed.0 s0 resp (rw (← first) answered) h in
      let s' = (push records idempotency codec now owner_id key req s).1 in
      let second = push-cached later owner_id key again b s' (rw first found) in
      rw second (trips resp b m, refl)
