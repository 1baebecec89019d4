-- ===== src/Client/Syncer/Push.antt =====
-- Pushing: what an answer leaves in the store, and what is pending after an error.
use voldepass.Prelude.{
  ℕ, String, ◌≡◌, ◌≢◌, refl, ◌≤◌, none, some, Option, List, [], ◌∷◌, ◌++◌, arith, All, filter,
  eq_iff, ◌==◌, if◌then◌else◌, dec_true,
}
use voldepass.GoMap.{lookup}
use voldepass.GoMap.Laws.{lookup-insert}
use voldepass.Domain.{RecordDto, PushResult, applied, conflicted}
use voldepass.Client.Storage
use voldepass.Client.Storage.{StoredRecord, PendingBatch, is_other_batch}
use voldepass.Client.Syncer.Local.{Local, clean, store_results}

-- The record that the last applied result with this id carries.
unfoldable pub applied_record : String → List PushResult → Option RecordDto
applied_record k [] = none
applied_record k (p ∷ ps) = elim (applied_record k ps) [
  | some dto ↦ some dto
  | none ↦ elim p.status [
    | applied ↦ if p.server_record.id == k then some p.server_record else none
    | conflicted ↦ none
  ]
]

-- The answer to a push replaces the records that the server applied, by what the server sent and
-- as synchronised ones, and no other record: one in conflict stays as it is.
pub lookup-store_results :
    (k : String) (ps : List PushResult) (s : Storage.State)
    → lookup k (store_results ps s).records
      ≡ (elim (applied_record k ps) [ none ↦ lookup k s.records | some dto ↦ some (clean dto) ])
unfolding store_results applied_record Storage.put_record
lookup-store_results k [] s = refl
lookup-store_results k (p ∷ ps) s = ground (
  arith,
  lookup-store_results k ps s,
  lookup-store_results k ps (Storage.put_record (clean p.server_record) s),
  lookup-insert p.server_record.id k (clean p.server_record) s.records,
)

pub store_results-pending_push :
    (ps : List PushResult) (s : Storage.State) → (store_results ps s).pending_push ≡ s.pending_push
unfolding store_results Storage.put_record
store_results-pending_push [] s = refl
store_results-pending_push (p ∷ ps) s = ground (
  arith,
  store_results-pending_push ps s,
  store_results-pending_push ps (Storage.put_record (clean p.server_record) s),
)

-- No key that is still to be drawn is that of a pending batch.
abbrev pub IsFresh : (ℕ → String) → Local → Type 0
IsFresh uuid l =
    All (λ (b : PendingBatch). (n : ℕ) → l.uuids ≤ n → uuid n ≢ b.idempotency_key)
      l.store.pending_push

pub IsFresh-weaken :
    (uuid : ℕ → String) (m n : ℕ) (bs : List PendingBatch)
    → m ≤ n
    → All (λ (b : PendingBatch). (i : ℕ) → m ≤ i → uuid i ≢ b.idempotency_key) bs
    → All (λ (b : PendingBatch). (i : ℕ) → n ≤ i → uuid i ≢ b.idempotency_key) bs
IsFresh-weaken uuid m n [] le h = tt
IsFresh-weaken uuid m n (b ∷ bs) le h =
    (λ i g. h.0 i (omega arith), IsFresh-weaken uuid m n bs le h.1)

-- Clearing a batch that was added under a new key.
pub cleared-added :
    (uuid : ℕ → String) (u : ℕ) (b : PendingBatch) (bs : List PendingBatch)
    → b.idempotency_key ≡ uuid u
    → All (λ (b : PendingBatch). (n : ℕ) → u ≤ n → uuid n ≢ b.idempotency_key) bs
    → filter (λ b. dec_true (is_other_batch (uuid u) b)) (bs ++ b ∷ []) ≡ bs
cleared-added uuid u b [] e h = ground (arith, eq_iff b.idempotency_key (uuid u))
cleared-added uuid u b (x ∷ xs) e h =
    let new = h.0 u (omega arith) in
    ground (arith, eq_iff x.idempotency_key (uuid u), cleared-added uuid u b xs e h.1)
