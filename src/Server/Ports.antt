-- ===== src/Server/Ports.antt =====
-- internal/server/service/ports.go: the repositories that the services take.
use voldepass.Prelude.{String, ◌≡◌, List, ◌≤◌, ◌+◌}
use voldepass.Domain.{Bytes, Time, Int64, Result, ok, Error, Record}

-- What Upsert returns: a saved record, the server's record with ErrConflict, or another error.
pub data Upserted : Type 0 where
  saved : Record → Upserted
  stale : Record → Upserted
  failed : Error → Upserted

-- The store of records, its state passed on explicitly. A refused call changes nothing, and `get`
-- gives a caller only its own records.
pub record RecordRepository : Type 1 where
  pub State : Type 0
  pub upsert : Time → Record → Int64 → State → Upserted × State
  pub list_since : String → Int64 → State → Result (List Record)
  pub get : String → String → State → Result Record
  pub delete : Time → String → String → State → Result (Unit {0}) × State
  pub get_owner :
      (id owner_id : String) (s : State) (r : Record)
      → get id owner_id s ≡ ok r
      → r.owner_id ≡ owner_id
  pub upsert_stale :
      (now : Time) (r : Record) (base : Int64) (s : State) (current : Record)
      → (upsert now r base s).0 ≡ stale current
      → (upsert now r base s).1 ≡ s

-- The store of push results. A result that was saved is found until its time to live is over,
-- and a key that is not found is reported as ErrNotFound.
pub record IdempotencyStore : Type 1 where
  pub State : Type 0
  pub get : Time → String → String → State → Result Bytes × State
  pub save : Time → String → String → Bytes → Time → State → Result (Unit {0}) × State
  pub get-save :
      (now later : Time) (owner_id key : String) (result : Bytes) (ttl : Time) (s : State)
      → (save now owner_id key result ttl s).0 ≡ ok tt
      → later ≤ now + ttl
      → (get later owner_id key (save now owner_id key result ttl s).1).0 ≡ ok result
