-- ===== src/Server/Auth/Refresh.antt =====
-- internal/server/auth/refresh.go, over the in-memory token store. `raw` is what the random source
-- gives, or none if it fails.
pub mod Theft
use voldepass.Prelude.{String, Bool, none, some, Option, [], ◌+◌, if◌then◌else◌}
use voldepass.Domain.{Bytes, Time, after, Result, ok, err, internal, unauthorized}
use voldepass.Server.Inmem.Tokens
use voldepass.Server.Auth.Primitives.{Primitives}

pub record Service : Type 0 where
  pub store : Tokens.Store
  pub ttl : Time

-- NewRefreshTokenService
unfoldable pub new : Time → Service
unfolding Tokens.new
new ttl = record { store = Tokens.new; ttl = ttl }

-- hashToken
unfoldable pub hash_token : Primitives → String → String
hash_token p token = p.hex_encode (p.sha256 (p.bytes_of token))

-- Issue
unfoldable pub issue : Primitives → Time → Option Bytes → String → Service → Result String × Service
unfolding hash_token
issue p now none user_id s = (err internal, s)
issue p now (some raw) user_id s =
    let token = p.hex_encode raw in
    (ok token, record s { store = Tokens.save user_id (hash_token p token) (now + s.ttl) s.store })

-- The end of Rotate: a new token takes the old one's place.
unfoldable pub exchange :
    Primitives
    → Time
    → Option Bytes
    → String
    → String
    → Service
    → Result (String × String) × Service
unfolding hash_token
exchange p now none old_hash user_id s = (err internal, s)
exchange p now (some raw) old_hash user_id s =
    let token = p.hex_encode raw in
    let (r, store) = Tokens.rotate old_hash (hash_token p token) user_id (now + s.ttl) s.store in
    elim r [
      | ok _ ↦ (ok (token, user_id), record s { store = store })
      | err e ↦ (err e, record s { store = store })
    ]

-- Rotate. A revoked token that comes back revokes all tokens of its user.
unfoldable pub rotate :
    Primitives → Time → Option Bytes → String → Service → Result (String × String) × Service
unfolding hash_token exchange
rotate p now raw old_token s =
    let old_hash = hash_token p old_token in
    elim (Tokens.get old_hash s.store) [
      | err e ↦ (err e, s)
      | ok e ↦
          if e.revoked
          then (err unauthorized, record s { store = Tokens.revoke_all e.user_id s.store })
          else if after now e.expires_at
          then (err unauthorized, s)
          else exchange p now raw old_hash e.user_id s
    ]

-- Revoke
unfoldable pub revoke : String → Service → Service
revoke user_id s = record s { store = Tokens.revoke_all user_id s.store }
