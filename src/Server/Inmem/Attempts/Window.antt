-- ===== src/Server/Inmem/Attempts/Window.antt =====
-- What the limit on logins promises.
use voldepass.Prelude.{
  ℕ, String, ◌≡◌, refl, true, none, some, List, [], ◌∷◌, ◌+◌, ◌^◌, ◌≤◌, ◌<◌, ltb, arith, All,
  length, eq_iff,
}
use voldepass.GoMap.{lookup}
use voldepass.GoMap.Laws.{lookup-delete, lookup-insert_self}
use voldepass.Domain.{Time, int64_zero, increment}
use voldepass.Server.Inmem.Attempts.{Tracker, Entry, allowed, inc, reset, current}

-- Inc at each of the times, in order.
unfoldable pub inc_all : List Time → String → Tracker → Tracker
inc_all [] login t = t
inc_all (now ∷ times) login t = inc_all times login (inc now login t)

-- The entry of `login` counts `n` failures in a window that ends at `window_end`.
abbrev pub Counts : String → ℕ → Time → Tracker → Type 0
Counts login n window_end t =
    lookup login t.attempts ≡ some (record { count = int64_zero + n; window_end = window_end })

inc-Counts :
    (now : Time) (login : String) (n : ℕ) (window_end : Time) (t : Tracker)
    → now ≤ window_end
    → n + 1 < 2 ^ 63
    → Counts login n window_end t
    → Counts login (n + 1) window_end (inc now login t)
unfolding inc
inc-Counts now login n window_end t h m c =
    let e = current now login t in
    let found = lookup-insert_self login (record e { count = increment e.count }) t.attempts in
    ground (arith, found)

inc-opens :
    (start : Time) (login : String) (t : Tracker)
    → lookup login t.attempts ≡ none
    → Counts login 1 (start + t.window) (inc start login t)
unfolding inc
inc-opens start login t h =
    let e = current start login t in
    let found = lookup-insert_self login (record e { count = increment e.count }) t.attempts in
    ground (arith, found)

inc_all-Counts :
    (times : List Time) (login : String) (n : ℕ) (window_end : Time) (t : Tracker)
    → All (λ now. now ≤ window_end) times
    → n + length times < 2 ^ 63
    → Counts login n window_end t
    → Counts login (n + length times) window_end (inc_all times login t)
unfolding inc_all
inc_all-Counts [] login n window_end t h m c = let e : n + 0 ≡ n = omega arith in rw e c
inc_all-Counts (now ∷ times) login n window_end t h m c =
    let e : n + length (now ∷ times) ≡ n + 1 + length times = omega arith in
    rw e (
      inc_all-Counts times login (n + 1) window_end (inc now login t) h.1 (omega arith)
        (inc-Counts now login n window_end t h.0 (omega arith) c))

max_attempts-inc :
    (now : Time) (login : String) (t : Tracker) → (inc now login t).max_attempts ≡ t.max_attempts
unfolding inc
max_attempts-inc now login t = refl

max_attempts-inc_all :
    (times : List Time) (login : String) (t : Tracker)
    → (inc_all times login t).max_attempts ≡ t.max_attempts
unfolding inc_all inc
max_attempts-inc_all [] login t = refl
max_attempts-inc_all (now ∷ times) login t = max_attempts-inc_all times login (inc now login t)

-- The first failure opens the window, and later ones do not move its end: for a login without an
-- entry, after a failure at `start` and more of them within the window, fewer than 2 ^ 63 in all,
-- a login within the window is allowed exactly while there were fewer failures than the limit.
pub allowed-inc_all :
    (start now : Time) (times : List Time) (login : String) (t : Tracker)
    → lookup login t.attempts ≡ none
    → All (λ time. time ≤ start + t.window) times
    → length times + 1 < 2 ^ 63
    → now ≤ start + t.window
    → allowed now login (inc_all times login (inc start login t))
      ≡ ltb (int64_zero + (1 + length times)) t.max_attempts
unfolding allowed
allowed-inc_all start now times login t new_login within m h =
    let opened = inc-opens start login t new_login in
    let counted =
      inc_all-Counts times login 1 (start + t.window) (inc start login t) within (omega arith)
        opened in
    let limit = max_attempts-inc_all times login (inc start login t) in
    ground (arith, counted, limit, max_attempts-inc start login t)

-- Once the window is over, or after a reset, a login is allowed whatever was counted before.
pub allowed-over :
    (now : Time) (login : String) (t : Tracker) (e : Entry)
    → lookup login t.attempts ≡ some e
    → e.window_end < now
    → allowed now login t ≡ true
unfolding allowed
allowed-over now login t e found h = ground arith

pub allowed-reset :
    (now : Time) (login : String) (t : Tracker) → allowed now login (reset login t) ≡ true
unfolding allowed reset
allowed-reset now login t = ground (arith, lookup-delete login login t.attempts, eq_iff login login)
