-- ===== src/Server/Inmem/Tokens.antt =====
-- internal/server/storage/inmem/refresh_token.go: refresh tokens, under their hashes.
use voldepass.Prelude.{String, Bool, true, false, none, some, [], ◌==◌, if◌then◌else◌}
use voldepass.GoMap.{GoMap, lookup, insert, update_all}
use voldepass.Domain.{Time, Result, ok, err, not_found}

pub record Entry : Type 0 where
  pub user_id : String
  pub expires_at : Time
  pub revoked : Bool

pub record Store : Type 0 where
  pub tokens : GoMap Entry

-- NewRefreshTokenStore
unfoldable pub new : Store
new = record { tokens = [] }

-- Save
unfoldable pub save : String → String → Time → Store → Store
save user_id token_hash expires_at s = record {
  tokens =
      insert token_hash (record { user_id = user_id; expires_at = expires_at; revoked = false })
        s.tokens;
}

-- Get
unfoldable pub get : String → Store → Result Entry
get token_hash s = elim (lookup token_hash s.tokens) [ none ↦ err not_found | some e ↦ ok e ]

-- Rotate
unfoldable pub rotate : String → String → String → Time → Store → Result (Unit {0}) × Store
unfolding save
rotate old_hash new_hash user_id expires_at s = elim (lookup old_hash s.tokens) [
  | none ↦ (err not_found, s)
  | some e ↦ (
    ok tt,
    save user_id new_hash expires_at
        (record { tokens = insert old_hash (record e { revoked = true }) s.tokens }),
  )
]

-- The body of RevokeAll's loop.
unfoldable pub revoke_of : String → Entry → Entry
revoke_of user_id e = if e.user_id == user_id then record e { revoked = true } else e

-- RevokeAll
unfoldable pub revoke_all : String → Store → Store
revoke_all user_id s = record { tokens = update_all (revoke_of user_id) s.tokens }
