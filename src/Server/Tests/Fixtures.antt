-- ===== src/Server/Tests/Fixtures.antt =====
-- The data of the runs: a store with one record of alice's, and a codec for the answer of one push.
use voldepass.Prelude.{
  ℕ, ◌+◌, ◌^◌, String, Bool, ◌≡◌, refl, sym, ap, true, false, List, [], ◌∷◌, ◌==◌, ◌&&◌, eqb,
  eq_iff, eqb_iff, arith, if◌then◌else◌, not, Bool-cases, inl, inr,
}
use voldepass.Domain.{
  Bytes, Record, RecordDto, int64_zero, Result, ok, err, internal, PushResult, PushStatus, applied,
  conflicted, SyncPushRequest, SyncPushResponse,
}
use voldepass.Server.Inmem.Records
use voldepass.Server.Inmem.Idempotency
use voldepass.Server.Service.Sync.{Codec, State}
use voldepass.Server.Service.Sync.Retry.{RoundTrips}

abbrev pub alice : String
alice = "alice"

abbrev pub retry_key : String
retry_key = "k:1"

-- What alice sends.
abbrev pub dto : RecordDto
dto = record {
  id = "r1";
  data_type = 1;
  encrypted_meta = [];
  meta_nonce = [];
  ciphertext = 7 ∷ [];
  nonce = [];
  base_version = 2 ^ 63 + 1;
  version = int64_zero;
  updated_at = 0;
  is_deleted = false;
}

-- The same as the server writes it.
abbrev pub note : Record
note = record {
  id = "r1";
  owner_id = "alice";
  data_type = 1;
  encrypted_meta = [];
  meta_nonce = [];
  ciphertext = 7 ∷ [];
  nonce = [];
  version = int64_zero;
  updated_at = 0;
  deleted = false;
}

abbrev pub note' : Record
note' = record note { ciphertext = 8 ∷ [] }

-- The record that the store holds.
abbrev pub held : Record
held = record note { ciphertext = []; version = 2 ^ 63 + 1; updated_at = 10 }

abbrev pub shop : Records.Repository
shop = record { records = ("r1", held) ∷ []; seq = 2 ^ 63 + 1 }

abbrev pub history : List Records.Call
history = Records.upserts 10 (record note { ciphertext = [] }) int64_zero ∷ []

abbrev pub request : SyncPushRequest
request = record { records = dto ∷ [] }

abbrev is_applied : PushStatus → Bool
is_applied applied = true
is_applied conflicted = false

abbrev is_empty : Bytes → Bool
is_empty [] = true
is_empty (b ∷ bs) = false

abbrev first : Bytes → ℕ
first [] = 0
first (b ∷ bs) = b

abbrev is_single : Bytes → Bool
is_single [] = false
is_single (b ∷ bs) = is_empty bs

is_applied_lem : (s : PushStatus) → is_applied s ≡ true → s ≡ applied
is_applied_lem applied h = refl
is_applied_lem conflicted h = absurd (ground arith)

is_empty_lem : (b : Bytes) → is_empty b ≡ true → b ≡ []
is_empty_lem [] h = refl
is_empty_lem (b ∷ bs) h = absurd (ground arith)

is_single_lem : (b : Bytes) → is_single b ≡ true → b ≡ first b ∷ []
is_single_lem [] h = absurd (ground arith)
is_single_lem (b ∷ bs) h = ap (◌∷◌ b) (is_empty_lem bs h)

-- A result that the codec of the runs can write: an applied one on "r1".
abbrev pub answer : ℕ → ℕ → ℕ → PushResult
answer c v t = record {
  id = "r1";
  status = applied;
  server_record = record dto {
    ciphertext = c ∷ [];
    base_version = int64_zero;
    version = v;
    updated_at = t;
  };
}

abbrev is_answer : PushResult → Bool
is_answer p =
    p.id == "r1"
    && is_applied p.status
    && p.server_record.id == "r1"
    && eqb p.server_record.data_type 1
    && is_empty p.server_record.encrypted_meta
    && is_empty p.server_record.meta_nonce
    && is_single p.server_record.ciphertext
    && is_empty p.server_record.nonce
    && eqb p.server_record.base_version int64_zero
    && not p.server_record.is_deleted

is_answer_lem :
    (p : PushResult)
    → is_answer p ≡ true
    → answer (first p.server_record.ciphertext) p.server_record.version p.server_record.updated_at
      ≡ p
is_answer_lem p h =
    let a : p.id ≡ "r1" = ground (arith, eq_iff p.id "r1") in
    let b : p.status ≡ applied = is_applied_lem p.status (ground arith) in
    let c : p.server_record.id ≡ "r1" = ground (arith, eq_iff p.server_record.id "r1") in
    let d : p.server_record.data_type ≡ 1 = ground (arith, eqb_iff p.server_record.data_type 1) in
    let e = is_empty_lem p.server_record.encrypted_meta (ground arith) in
    let f = is_empty_lem p.server_record.meta_nonce (ground arith) in
    let g = is_single_lem p.server_record.ciphertext (ground arith) in
    let k = is_empty_lem p.server_record.nonce (ground arith) in
    let l : p.server_record.base_version ≡ int64_zero =
      ground (arith, eqb_iff p.server_record.base_version int64_zero) in
    let m : p.server_record.is_deleted ≡ false = ground arith in
    sym (λ i. record {
      id = a i;
      status = b i;
      server_record = record {
        id = c i;
        data_type = d i;
        encrypted_meta = e i;
        meta_nonce = f i;
        ciphertext = g i;
        nonce = k i;
        base_version = l i;
        version = p.server_record.version;
        updated_at = p.server_record.updated_at;
        is_deleted = m i;
      };
    })

abbrev write : List PushResult → Result Bytes
write [] = ok []
write (p ∷ []) =
    if is_answer p
    then ok (
        first p.server_record.ciphertext
        ∷ p.server_record.version
        ∷ p.server_record.updated_at
        ∷ [])
    else err internal
write (p ∷ q ∷ ps) = err internal

abbrev read : Bytes → Result SyncPushResponse
read [] = ok (record { results = [] })
read (c ∷ v ∷ t ∷ []) = ok (record { results = answer c v t ∷ [] })
read _ = err internal

read-write :
    (ps : List PushResult) (b : Bytes) → write ps ≡ ok b → read b ≡ ok (record { results = ps })
read-write [] b h = let e : [] ≡ b = ground arith in rw (← e) refl
read-write (p ∷ q ∷ ps) b h = absurd (ground arith)
read-write (p ∷ []) b h = elim (Bool-cases (is_answer p)) [
  | inr f ↦ absurd (ground arith)
  | inl t ↦
      let x = p.server_record in
      let e : first x.ciphertext ∷ x.version ∷ x.updated_at ∷ [] ≡ b = ground arith in
      rw (← e) (ap (λ q. ok (record { results = q ∷ [] })) (is_answer_lem p t))
]

abbrev pub codec : Codec
codec = record { marshal = λ r. write r.results; unmarshal = read }

pub codec-RoundTrips : RoundTrips codec
codec-RoundTrips r b h = read-write r.results b h

abbrev pub start : State Records.port Idempotency.port codec
start = (shop, record { entries = [] })
