-- ===== src/Server/Auth/Challenge.antt =====
-- internal/server/auth/challenge.go. `raw` is what the random source gives, or none if it fails.
pub mod OneTime
use voldepass.Prelude.{String, Bool, none, some, Option, [], ◌+◌, if◌then◌else◌}
use voldepass.GoMap.{GoMap, lookup, insert, delete}
use voldepass.Domain.{Bytes, Time, after, Result, ok, err, internal}
use voldepass.Server.Auth.Primitives.{Primitives}

pub record Entry : Type 0 where
  pub nonce : String
  pub expires_at : Time

pub record Store : Type 0 where
  pub challenges : GoMap Entry
  pub ttl : Time

-- NewChallengeStore
unfoldable pub new : Time → Store
new ttl = record { challenges = []; ttl = ttl }

-- Issue. A new challenge replaces the one that the login has.
unfoldable pub issue : Primitives → Time → Option Bytes → String → Store → Result String × Store
issue p now none login s = (err internal, s)
issue p now (some raw) login s =
    let nonce = p.hex_encode raw in
    (
      ok nonce,
      record s {
        challenges = insert login (record { nonce = nonce; expires_at = now + s.ttl }) s.challenges;
      },
    )

-- Consume. The challenge is removed before its time is looked at.
unfoldable pub consume : Time → String → Store → Result String × Store
consume now login s = elim (lookup login s.challenges) [
  | none ↦ (err internal, s)
  | some e ↦
      let s' : Store = record s { challenges = delete login s.challenges } in
      if after now e.expires_at then (err internal, s') else (ok e.nonce, s')
]
