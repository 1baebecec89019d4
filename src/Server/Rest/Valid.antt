-- ===== src/Server/Rest/Valid.antt =====
-- What reaches the synchronisation, and what a refused request leaves.
use voldepass.Prelude.{
  ℕ, String, Bool, ◌≡◌, ◌≢◌, refl, inl, inr, ◌≤◌, true, Option, none, some, List, [], ◌∷◌, arith,
  All, eq_iff,
}
use voldepass.Domain.{Time, valid, RecordDto, SyncPushRequest, SyncPushResponse, ok, Result-cases}
use voldepass.Server.Ports.{RecordRepository, IdempotencyStore}
use voldepass.Server.Service.Sync
use voldepass.Server.Service.Sync.{Codec}
use voldepass.Server.Rest.{
  replied, failed, status_of, Body, decoded, malformed, over_limit, check_records, check_push, push,
  user_id_from_context, decode_error, validate_short_string, validate_record_id, check_type,
  check_key,
}

module _ (is_uuid : String → Bool) (byte_length : String → ℕ) where
  -- A batch that may be stored: every id is a UUID, and every type is known.
  abbrev pub AreStorable : List RecordDto → Type 0
  AreStorable = All (λ rec. (is_uuid rec.id ≡ true) × (valid rec.data_type ≡ true))

  check_records-AreStorable :
      (recs : List RecordDto) → check_records is_uuid byte_length recs ≡ ok tt → AreStorable recs
  unfolding check_records validate_record_id check_type
  check_records-AreStorable [] h = tt
  check_records-AreStorable (rec ∷ recs) h = ground (arith, check_records-AreStorable recs)

  -- What the checks of a push find out about the request.
  pub record IsAccepted (user : Option String) (key : String) (body : Body SyncPushRequest)
      : Type 0 where
    pub owner_id : String
    pub req : SyncPushRequest
    pub is_user : user ≡ some owner_id
    pub named : owner_id ≢ ""
    pub keyed : key ≢ ""
    pub short : byte_length key ≤ 200
    pub is_body : body ≡ decoded req
    pub storable : AreStorable req.records

  check_push-IsAccepted :
      (user : Option String) (key : String) (body : Body SyncPushRequest)
      (checked : String × SyncPushRequest)
      → check_push is_uuid byte_length user key body ≡ ok checked
      → IsAccepted user key body
  unfolding check_push user_id_from_context validate_short_string decode_error check_key
  check_push-IsAccepted none key body checked h = absurd (ground arith)
  check_push-IsAccepted (some user) key malformed checked h = absurd (ground arith)
  check_push-IsAccepted (some user) key over_limit checked h = absurd (ground arith)
  check_push-IsAccepted (some user) key (decoded req) checked h =
      elim (Result-cases (check_records is_uuid byte_length req.records)) [
        | inr (x, e) ↦ absurd (ground arith)
        | inl (u, e) ↦
            let recs = check_records-AreStorable req.records (ground arith) in
            record {
              owner_id = user;
              req = req;
              is_user = refl;
              named = λ q. ground (arith, eq_iff user "");
              keyed = λ q. ground (arith, eq_iff key "");
              short = ground arith;
              is_body = refl;
              storable = recs;
            }
      ]

  module _ (records : RecordRepository) (idempotency : IdempotencyStore) (codec : Codec) where
    -- A push that is answered with 200 came from a known user, under a key that is not empty and has
    -- at most 200 bytes, with a body that was decoded, every record of it having a UUID and a known
    -- type.
    pub push-IsAccepted :
        (now : Time) (user : Option String) (key : String) (body : Body SyncPushRequest)
        (s : Sync.State records idempotency codec) (resp : SyncPushResponse)
        → (push is_uuid byte_length records idempotency codec now user key body s).0
          ≡ replied 200 resp
        → IsAccepted user key body
    unfolding push
    push-IsAccepted now user key body s resp h =
        elim (Result-cases (check_push is_uuid byte_length user key body)) [
          | inl (checked, e) ↦ check_push-IsAccepted user key body checked e
          | inr (x, e) ↦ absurd (ground arith)
        ]

    -- A push that is not of this kind is answered with the status of an error, and leaves both
    -- stores as they are.
    pub push-refused :
        (now : Time) (user : Option String) (key : String) (body : Body SyncPushRequest)
        (s : Sync.State records idempotency codec)
        → (¬ IsAccepted user key body)
        → (status : ℕ) × (push is_uuid byte_length records idempotency codec now user key body s
            ≡ (failed status, s))
    unfolding push
    push-refused now user key body s none_such =
        elim (Result-cases (check_push is_uuid byte_length user key body)) [
          | inl (checked, e) ↦ absurd (none_such (check_push-IsAccepted user key body checked e))
          | inr (x, e) ↦ (status_of x, ground arith)
        ]
