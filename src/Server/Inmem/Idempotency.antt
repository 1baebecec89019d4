-- ===== src/Server/Inmem/Idempotency.antt =====
-- internal/server/storage/inmem/idempotency.go.
pub mod Keys
use Prim.Native.String.{◌++◌}
use voldepass.Prelude.{String, ◌≡◌, ◌+◌, ◌≤◌, none, some, [], if◌then◌else◌, arith}
use voldepass.GoMap.{GoMap, lookup, insert, delete, delete_where}
use voldepass.GoMap.Laws.{lookup-insert_self}
use voldepass.Domain.{Bytes, Time, after, Result, ok, err, not_found}
use voldepass.Server.Ports

pub record Entry : Type 0 where
  pub result : Bytes
  pub expires_at : Time

pub record Store : Type 0 where
  pub entries : GoMap Entry

-- NewIdempotencyStore
unfoldable pub new : Store
new = record { entries = [] }

-- ownerID + ":" + key
unfoldable pub entry_key : String → String → String
entry_key owner_id key = owner_id ++ (":" ++ key)

-- Get. An entry whose time is over is removed and reported as not found.
unfoldable pub get : Time → String → String → Store → Result Bytes × Store
get now owner_id key s =
    let k = entry_key owner_id key in
    let gone : Result Bytes × Store = (err not_found, record { entries = delete k s.entries }) in
    elim (lookup k s.entries) [
      | none ↦ gone
      | some e ↦ if after now e.expires_at then gone else (ok e.result, s)
    ]

-- Save
unfoldable pub save : Time → String → String → Bytes → Time → Store → Store
save now owner_id key result ttl s = record {
  entries =
      insert (entry_key owner_id key) (record { result = result; expires_at = now + ttl })
        s.entries;
}

-- DeleteExpired
unfoldable pub delete_expired : Time → Store → Store
delete_expired now s = record { entries = delete_where (λ e. after now e.expires_at) s.entries }

pub get-save :
    (now later : Time) (owner_id key : String) (result : Bytes) (ttl : Time) (s : Store)
    → later ≤ now + ttl
    → (get later owner_id key (save now owner_id key result ttl s)).0 ≡ ok result
unfolding get save
get-save now later owner_id key result ttl s h =
    let found =
      lookup-insert_self (entry_key owner_id key)
        (record { result = result; expires_at = now + ttl }) s.entries in
    ground (arith, found)

abbrev pub port : Ports.IdempotencyStore
port = record {
  State = Store;
  get = get;
  save = λ now owner_id key result ttl s. (ok tt, save now owner_id key result ttl s);
  get-save =
      λ now later owner_id key result ttl s e h. get-save now later owner_id key result ttl s h;
}
