-- ===== src/Server/Inmem/Attempts.antt =====
-- internal/server/storage/inmem/login_attempt.go.
pub mod Window
use voldepass.Prelude.{String, Bool, true, none, some, [], ◌+◌, ltb, if◌then◌else◌}
use voldepass.GoMap.{GoMap, lookup, insert, delete}
use voldepass.Domain.{Time, after, Int64, int64_zero, increment}

pub record Entry : Type 0 where
  pub count : Int64
  pub window_end : Time

pub record Tracker : Type 0 where
  pub attempts : GoMap Entry
  pub max_attempts : Int64
  pub window : Time

-- NewLoginAttemptTracker
unfoldable pub new : Int64 → Time → Tracker
new max_attempts window = record { attempts = []; max_attempts = max_attempts; window = window }

-- Allowed
unfoldable pub allowed : Time → String → Tracker → Bool
allowed now login t = elim (lookup login t.attempts) [
  | none ↦ true
  | some e ↦ if after now e.window_end then true else ltb e.count t.max_attempts
]

-- The entry that Inc counts on: the one that is there, or a new one where the window is over.
unfoldable pub current : Time → String → Tracker → Entry
current now login t =
    let fresh : Entry = record { count = int64_zero; window_end = now + t.window } in
    elim (lookup login t.attempts) [
      | none ↦ fresh
      | some e ↦ if after now e.window_end then fresh else e
    ]

-- Inc
unfoldable pub inc : Time → String → Tracker → Tracker
unfolding current
inc now login t =
    let e = current now login t in
    record t { attempts = insert login (record e { count = increment e.count }) t.attempts }

-- Reset
unfoldable pub reset : String → Tracker → Tracker
reset login t = record t { attempts = delete login t.attempts }
