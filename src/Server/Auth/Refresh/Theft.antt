-- ===== src/Server/Auth/Refresh/Theft.antt =====
-- Rotation: what a token is worth before and after it was used.
use mathlib.Core.Option
use voldepass.Prelude.{
  String, ◌≡◌, ◌≢◌, refl, true, false, some, ◌+◌, ◌≤◌, arith, eq_refl, sym, Option as Opt, ap, ◌==◌,
  if◌then◌else◌,
}
use voldepass.GoMap.{lookup, insert}
use voldepass.GoMap.Laws.{lookup-insert_ne, lookup-insert_self, lookup-update_all}
use voldepass.Domain.{Bytes, Time, Result, ok, err, unauthorized}
use voldepass.Server.Inmem.Tokens
use voldepass.Server.Auth.Primitives.{Primitives}
use voldepass.Server.Auth.Refresh.{Service, hash_token, rotate, revoke}

abbrev Answer : Type 0
Answer = Result (String × String) × Service

-- The entry that the store has for a token.
abbrev pub entry_of : Primitives → String → Service → Opt Tokens.Entry
entry_of p token s = lookup (hash_token p token) s.store.tokens

-- RevokeAll marks every token of the user as revoked, and leaves the tokens of others as they were.
pub entry-revoke :
    (p : Primitives) (token user_id : String) (s : Service)
    → entry_of p token (revoke user_id s)
      ≡ Option.map
          (λ (e : Tokens.Entry). if e.user_id == user_id then record e { revoked = true } else e)
          (entry_of p token s)
unfolding revoke Tokens.revoke_all Tokens.revoke_of
entry-revoke p token user_id s =
    lookup-update_all (Tokens.revoke_of user_id) (hash_token p token) s.store.tokens

-- A live token is exchanged for the new one, if their hashes differ: the answer names its user,
-- the old token is revoked, and the new one is live until its own time to live is over.
pub rotate_live :
    (p : Primitives) (now : Time) (raw : Bytes) (old : String) (s : Service) (e : Tokens.Entry)
    → entry_of p old s ≡ some e
    → e.revoked ≡ false
    → now ≤ e.expires_at
    → hash_token p old ≢ hash_token p (p.hex_encode raw)
    → let (r, s') = rotate p now (some raw) old s in
      (r ≡ ok (p.hex_encode raw, e.user_id))
      × (entry_of p old s' ≡ some (record e { revoked = true }))
      × (entry_of p (p.hex_encode raw) s'
          ≡ some (record { user_id = e.user_id; expires_at = now + s.ttl; revoked = false }))
unfolding rotate Tokens.get Tokens.rotate Tokens.save
rotate_live p now raw old s e found live h ne =
    let fresh = hash_token p (p.hex_encode raw) in
    let used : Tokens.Entry = record e { revoked = true } in
    let given : Tokens.Entry = record {
      user_id = e.user_id;
      expires_at = now + s.ttl;
      revoked = false;
    } in
    let marked = insert (hash_token p old) used s.store.tokens in
    let kept = lookup-insert_ne fresh (hash_token p old) given marked (λ q. ne (sym q)) in
    let at_old = lookup-insert_self (hash_token p old) used s.store.tokens in
    let at_new = lookup-insert_self fresh given marked in
    (ground arith, ground (arith, kept, at_old), ground (arith, at_new))

-- Theft detection: a revoked token that comes back is refused, and revokes every token of its user.
pub rotate_reused :
    (p : Primitives) (now : Time) (raw : Opt Bytes) (old : String) (s : Service) (e : Tokens.Entry)
    → entry_of p old s ≡ some e
    → e.revoked ≡ true
    → rotate p now raw old s ≡ (err unauthorized, revoke e.user_id s)
unfolding rotate revoke Tokens.get
rotate_reused p now raw old s e found used = ground arith

-- After a rotation of a live token to one with another hash, presenting the old token again is
-- refused and revokes the new one too: a third rotation, by the new token, is refused as well.
pub rotate_stolen :
    (p : Primitives) (now later last : Time) (raw : Bytes) (raw' raw'' : Opt Bytes) (old : String)
    (s : Service) (e : Tokens.Entry)
    → entry_of p old s ≡ some e
    → e.revoked ≡ false
    → now ≤ e.expires_at
    → hash_token p old ≢ hash_token p (p.hex_encode raw)
    → let s' = (rotate p now (some raw) old s).1 in
      let s'' = (rotate p later raw' old s').1 in
      ((rotate p later raw' old s').0 ≡ err unauthorized)
      × ((rotate p last raw'' (p.hex_encode raw) s'').0 ≡ err unauthorized)
rotate_stolen p now later last raw raw' raw'' old s e found live h ne =
    let s' = (rotate p now (some raw) old s).1 in
    let first = rotate_live p now raw old s e found live h ne in
    let used : Tokens.Entry = record e { revoked = true } in
    let second = rotate_reused p later raw' old s' used first.1 refl in
    let new = p.hex_encode raw in
    let given : Tokens.Entry = record {
      user_id = e.user_id;
      expires_at = now + s.ttl;
      revoked = true;
    } in
    let marked : entry_of p new (revoke e.user_id s') ≡ some given =
      ground (arith, entry-revoke p new e.user_id s', first.2, eq_refl e.user_id) in
    let third = rotate_reused p last raw'' new (revoke e.user_id s') given marked refl in
    (ap (λ (t : Answer). t.0) second, rw second (ap (λ (t : Answer). t.0) third))
