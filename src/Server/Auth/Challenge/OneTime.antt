-- ===== src/Server/Auth/Challenge/OneTime.antt =====
-- A challenge is good for one login, of its own login name, within its time.
use voldepass.Prelude.{
  String, ◌≡◌, none, some, ◌+◌, arith, eq_iff, ltb, ◌==◌, if◌then◌else◌, Option-cases, inl, inr,
}
use voldepass.GoMap.{lookup}
use voldepass.GoMap.Laws.{lookup-insert_self, lookup-delete}
use voldepass.Domain.{Bytes, Time, ok, err, internal}
use voldepass.Server.Auth.Primitives.{Primitives}
use voldepass.Server.Auth.Challenge.{Store, issue, consume}

-- Consume leaves the login without a challenge, whatever it answered, and the challenges of other
-- logins as they were.
pub lookup-consume :
    (now : Time) (login other : String) (s : Store)
    → lookup other (consume now login s).1.challenges
      ≡ (if login == other then none else lookup other s.challenges)
unfolding consume
lookup-consume now login other s = elim (Option-cases (lookup login s.challenges)) [
  | inl e ↦ ground (arith, eq_iff login other)
  | inr (x, e) ↦ ground (arith, lookup-delete login other s.challenges)
]

-- A challenge is good once: after a Consume, whatever it answered, a second one of that login fails
-- and changes nothing.
pub consume_twice :
    (now later : Time) (login : String) (s : Store)
    → consume later login (consume now login s).1 ≡ (err internal, (consume now login s).1)
consume_twice now later login s =
    let gone = lookup-consume now login login s in
    unfold consume in ground (arith, gone, eq_iff login login)

-- A challenge that was issued is what Consume gives for that login up to the end of its time to
-- live, and an error after it.
pub consume-issue :
    (p : Primitives) (now later : Time) (raw : Bytes) (login : String) (s : Store)
    → (consume later login (issue p now (some raw) login s).1).0
      ≡ (if ltb (now + s.ttl) later then err internal else ok (p.hex_encode raw))
unfolding consume issue
consume-issue p now later raw login s =
    let found =
      lookup-insert_self login (record { nonce = p.hex_encode raw; expires_at = now + s.ttl })
        s.challenges in
    ground (arith, found)
