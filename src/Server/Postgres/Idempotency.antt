-- ===== src/Server/Postgres/Idempotency.antt =====
-- internal/server/storage/postgres/idempotency.go: the table `idempotency_keys`, unique in the pair of
-- owner and key.
use voldepass.Prelude.{
  String, ◌≡◌, Bool, false, Option, none, some, List, [], ◌∷◌, ◌==◌, ◌&&◌, ◌+◌, ◌*◌, ◌^◌, ltb, not,
  if◌then◌else◌, filter, dec_true, arith, eq_refl, inl, inr, Bool-cases,
}
use voldepass.Domain.{Bytes, Time, Result, ok, err, not_found, internal}
use voldepass.Server.Ports

pub record Row : Type 0 where
  pub owner_id : String
  pub key : String
  pub result : Bytes
  pub created_at : Time

abbrev pub Table : Type 0
Table = List Row

abbrev pub is_at : String → String → Row → Bool
is_at owner_id key row = row.owner_id == owner_id && row.key == key

-- WHERE owner_id = $1 AND key = $2
unfoldable pub find : String → String → Table → Option Row
find owner_id key [] = none
find owner_id key (row ∷ rows) = if is_at owner_id key row then some row else find owner_id key rows

-- INSERT ... ON CONFLICT (owner_id, key) DO UPDATE SET result: the time of creation stays.
unfoldable pub put : Time → String → String → Bytes → Table → Table
put now owner_id key result [] =
    record { owner_id = owner_id; key = key; result = result; created_at = now } ∷ []
put now owner_id key result (row ∷ rows) =
    if is_at owner_id key row
    then record row { result = result } ∷ rows
    else row ∷ put now owner_id key result rows

-- Get: the time of creation is read, and not looked at.
unfoldable pub get : Bool → String → String → Table → Result Bytes
get fails owner_id key rows =
    if fails
    then err internal
    else elim (find owner_id key rows) [ none ↦ err not_found | some row ↦ ok row.result ]

-- Save: the duration is not used.
unfoldable pub save :
    Bool → Time → String → String → Bytes → Time → Table → Result (Unit {0}) × Table
save fails now owner_id key result ttl rows =
    if fails then (err internal, rows) else (ok tt, put now owner_id key result rows)

-- 24 hours
unfoldable pub interval : Time
interval = 24 * 3600 * 10 ^ 9

-- DeleteExpired
unfoldable pub delete_expired : Bool → Time → Table → Result (Unit {0}) × Table
unfolding interval
delete_expired fails now rows =
    if fails
    then (err internal, rows)
    else (ok tt, filter (λ row. dec_true (not (ltb (row.created_at + interval) now))) rows)

find-put :
    (now : Time) (owner_id key : String) (result : Bytes) (rows : Table)
    → (get false owner_id key (put now owner_id key result rows)) ≡ ok result
unfolding get find put
find-put now owner_id key result [] = ground (arith, eq_refl owner_id, eq_refl key)
find-put now owner_id key result (row ∷ rows) = elim (Bool-cases (is_at owner_id key row)) [
  | inl t ↦ ground (arith, t)
  | inr f ↦ ground (arith, f, find-put now owner_id key result rows)
]

-- A result that was saved is found, at any time until its row is removed.
pub get-save :
    (now : Time) (owner_id key : String) (result : Bytes) (ttl : Time) (rows : Table)
    → get false owner_id key (save false now owner_id key result ttl rows).1 ≡ ok result
unfolding save
get-save now owner_id key result ttl rows = find-put now owner_id key result rows

-- The store, while the database answers, as the services see it.
abbrev pub port : Ports.IdempotencyStore
port = record {
  State = Table;
  get = λ now owner_id key rows. (get false owner_id key rows, rows);
  save = save false;
  get-save =
      λ now later owner_id key result ttl rows e h. get-save now owner_id key result ttl rows;
}
