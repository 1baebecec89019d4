-- ===== src/Server/Service/Auth/Honest.antt =====
-- The honest client gets in.
use voldepass.Prelude.{String, ◌≡◌, refl, true, none, some, ◌+◌, ◌≤◌, arith, le→ltb, ◌∙◌}
use voldepass.GoMap.{lookup, insert}
use voldepass.GoMap.Laws.{lookup-insert_self}
use voldepass.Domain.{Bytes, Time, User, Profile, ok}
use voldepass.Server.Inmem.Users
use voldepass.Server.Inmem.Attempts
use voldepass.Server.Auth.Primitives.{Primitives}
use voldepass.Server.Auth.Challenge
use voldepass.Server.Auth.Challenge.OneTime.{consume-issue}
use voldepass.Server.Auth.Refresh
use voldepass.Server.Service.Auth.{Service, register, challenge, grant, login}
use voldepass.Server.Service.Auth.Login.{IsProven, login-grants, taken}

grant-tokens :
    (p : Primitives) (now : Time) (raw : Bytes) (name user_id access : String) (s : Service)
    → p.issue_jwt now user_id ≡ ok access
    → (grant p now (some raw) name user_id s).0
      ≡ ok (record { access_token = access; refresh_token = p.hex_encode raw })
unfolding grant Refresh.issue
grant-tokens p now raw name user_id access s jwt = ground arith

-- The users after a registration.
abbrev with_user : User → Profile → Users.Repository → Users.Repository
with_user u profile r = record {
  by_id = insert u.id u r.by_id;
  by_login = insert u.login u r.by_login;
  profiles = insert u.id profile r.profiles;
}

register-new :
    (now : Time) (new_id name : String) (verifier : Bytes) (profile : Profile) (s : Service)
    → lookup name s.users.by_login ≡ none
    → let u : User = record {
      id = new_id;
      login = name;
      auth_verifier = verifier;
      created_at = now;
    } in
      register now new_id name verifier profile s
      ≡ (ok u, record s { users = with_user u (record profile { user_id = new_id }) s.users })
unfolding register Users.create
register-new now new_id name verifier profile s new = ground arith

challenge-known :
    (p : Primitives) (now : Time) (raw : Bytes) (u : User) (profile : Profile) (s : Service)
    → let s1 : Service = record s { users = with_user u profile s.users } in
      challenge p now (some raw) u.login s1 ≡ (
        ok (p.hex_encode raw, profile),
        record s1 { challenges = (Challenge.issue p now (some raw) u.login s.challenges).1 },
      )
unfolding challenge Users.get_by_login Users.get_profile Challenge.issue
challenge-known p now raw u profile s = ground (
  arith,
  lookup-insert_self u.login u s.users.by_login,
  lookup-insert_self u.id profile s.users.profiles,
)

-- The honest client gets in: after registering a new login without failures and asking for a
-- challenge, the message computed from the registered verifier and the challenge, sent before the
-- challenge is over, gives tokens, the access token being the one issued for the new user.
-- Comparing a message with itself has to succeed, as the issuing of the token has.
pub register_then_login :
    (p : Primitives) (t0 t1 t2 : Time) (new_id name access : String) (verifier raw raw' : Bytes)
    (profile : Profile) (s : Service)
    → lookup name s.users.by_login ≡ none
    → lookup name s.attempts.attempts ≡ none
    → t2 ≤ t1 + s.challenges.ttl
    → ((a : Bytes) → p.hmac_equal a a ≡ true)
    → p.issue_jwt t2 new_id ≡ ok access
    → let s1 = (register t0 new_id name verifier profile s).1 in
      let s2 = (challenge p t1 (some raw) name s1).1 in
      (login p t2 (some raw') name (p.hmac_sha256 verifier (p.bytes_of (p.hex_encode raw))) s2).0
      ≡ ok (record { access_token = access; refresh_token = p.hex_encode raw' })
register_then_login p t0 t1 t2 new_id name access verifier raw raw' profile s new first live
      refl_equal jwt =
    let u : User = record {
      id = new_id;
      login = name;
      auth_verifier = verifier;
      created_at = t0;
    } in
    let prof : Profile = record profile { user_id = new_id } in
    let s1 : Service = record s { users = with_user u prof s.users } in
    let s2 : Service = record s1 {
      challenges = (Challenge.issue p t1 (some raw) name s.challenges).1;
    } in
    let msg = p.hmac_sha256 verifier (p.bytes_of (p.hex_encode raw)) in
    let proven : IsProven p t2 name msg s2 = record {
      within_limit = unfold Attempts.allowed in ground arith;
      user = u;
      is_user =
          unfold Users.get_by_login in ground (arith, lookup-insert_self name u s.users.by_login);
      nonce = p.hex_encode raw;
      is_challenge = consume-issue p t1 t2 raw name s.challenges ∙ rw (le→ltb _ _ live) refl;
      answers = refl_equal msg;
    } in
    rw
      (
        register-new t0 new_id name verifier profile s new,
        challenge-known p t1 raw u prof s,
        login-grants p t2 (some raw') name msg s2 proven,
      )
      (grant-tokens p t2 raw' name new_id access (taken t2 name s2) jwt)
