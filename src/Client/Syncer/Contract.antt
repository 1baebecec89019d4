-- ===== src/Client/Syncer/Contract.antt =====
-- What the synchronisation relies on in a server, for keys that it has not seen.
use voldepass.Prelude.{ℕ, ◌≤◌, String, ◌≡◌, ◌≢◌, true, false}
use voldepass.Domain.{Int64, SyncPushRequest, SyncPushResponse, ok}
use voldepass.Client.Syncer.Local.{had_conflicts}
use voldepass.Client.Syncer.Dirty.{is_requested, is_reported}
use voldepass.Client.Syncer.Run.{Transport}

-- The server is ready for the ids from the n-th on, as idempotency keys. It stays so when it is
-- asked for changes, and when it is sent a batch under a key that is not one of them; and if it
-- answers a batch under such an id without a conflict, then it reports every record of the batch.
pub record Contract (transport : Transport) (uuid : ℕ → String) : Type 1 where
  pub IsReady : ℕ → transport.Server → Type 0
  pub later-IsReady : (n m : ℕ) (s : transport.Server) → n ≤ m → IsReady n s → IsReady m s
  pub pull-IsReady :
      (n : ℕ) (since : Int64) (s : transport.Server)
      → IsReady n s
      → IsReady n (transport.pull since s).1
  pub push-IsReady :
      (n m : ℕ) (key : String) (req : SyncPushRequest) (s : transport.Server)
      → n ≤ m
      → ((i : ℕ) → m ≤ i → uuid i ≢ key)
      → IsReady n s
      → IsReady m (transport.push key req s).1
  pub reports :
      (n : ℕ) (k : String) (req : SyncPushRequest) (s : transport.Server) (resp : SyncPushResponse)
      → IsReady n s
      → (transport.push (uuid n) req s).0 ≡ ok resp
      → had_conflicts resp.results ≡ false
      → is_requested k req.records ≡ true
      → is_reported k resp.results ≡ true
