-- ===== src/Server/Service/Auth/Login.antt =====
-- What a login takes and what it leaves behind.
use voldepass.Prelude.{String, ◌≡◌, true, Option, inl, inr, arith, Bool-cases}
use voldepass.Domain.{Bytes, Time, User, Result, ok, err, unauthorized, Result-cases}
use voldepass.Server.Inmem.Users
use voldepass.Server.Inmem.Attempts
use voldepass.Server.Inmem.Attempts.Window.{allowed-reset}
use voldepass.Server.Auth.Primitives.{Primitives}
use voldepass.Server.Auth.Challenge
use voldepass.Server.Auth.Challenge.OneTime.{consume_twice}
use voldepass.Server.Service.Auth.{AuthTokens, Service, grant, login}

-- What stands behind an answer of Login with tokens: the login was within its limit, had a live
-- challenge, is the login of a user, and the message answers the challenge by the user's key.
pub record IsProven (p : Primitives) (now : Time) (name : String) (auth_msg : Bytes) (s : Service)
    : Type 0 where
  pub within_limit : Attempts.allowed now name s.attempts ≡ true
  pub user : User
  pub is_user : Users.get_by_login name s.users ≡ ok user
  pub nonce : String
  pub is_challenge : (Challenge.consume now name s.challenges).0 ≡ ok nonce
  pub answers : p.hmac_equal (p.hmac_sha256 user.auth_verifier (p.bytes_of nonce)) auth_msg ≡ true

-- Login gives tokens only to a message that answers the login's own live challenge.
pub login-IsProven :
    (p : Primitives) (now : Time) (raw : Option Bytes) (name : String) (auth_msg : Bytes)
    (s : Service) (tokens : AuthTokens)
    → (login p now raw name auth_msg s).0 ≡ ok tokens
    → IsProven p now name auth_msg s
unfolding login
login-IsProven p now raw name auth_msg s tokens h =
    elim (Bool-cases (Attempts.allowed now name s.attempts)) [
      | inr no_room ↦ absurd (ground arith)
      | inl room ↦ elim (Result-cases (Challenge.consume now name s.challenges).0) [
        | inr (e, none_left) ↦ absurd (ground arith)
        | inl (nonce, live) ↦ elim (Result-cases (Users.get_by_login name s.users)) [
          | inr (e, unknown) ↦ absurd (ground arith)
          | inl (u, known) ↦ record {
            within_limit = room;
            user = u;
            is_user = known;
            nonce = nonce;
            is_challenge = live;
            answers = ground arith;
          }
        ]
      ]
    ]

abbrev Answer : Type 0
Answer = Result AuthTokens × Service

-- The service once the challenge of a login is taken.
abbrev pub taken : Time → String → Service → Service
taken now name s = record s { challenges = (Challenge.consume now name s.challenges).1 }

pub login-grants :
    (p : Primitives) (now : Time) (raw : Option Bytes) (name : String) (auth_msg : Bytes)
    (s : Service) (v : IsProven p now name auth_msg s)
    → login p now raw name auth_msg s ≡ grant p now raw name v.user.id (taken now name s)
unfolding login
login-grants p now raw name auth_msg s v =
    ground (arith, v.within_limit, v.is_user, v.is_challenge, v.answers)

pub grant-left :
    (p : Primitives) (now : Time) (raw : Option Bytes) (name user_id : String) (s : Service)
    → ((grant p now raw name user_id s).1.challenges ≡ s.challenges)
      × ((grant p now raw name user_id s).1.attempts ≡ Attempts.reset name s.attempts)
unfolding grant
grant-left p now raw name user_id s = ground arith

-- A login that gave tokens cannot be replayed: whatever message comes next for that login, without
-- a new challenge, is refused as unauthorized.
pub login_replayed :
    (p : Primitives) (now later : Time) (raw raw' : Option Bytes) (name : String)
    (auth_msg auth_msg' : Bytes) (s : Service) (tokens : AuthTokens)
    → (login p now raw name auth_msg s).0 ≡ ok tokens
    → (login p later raw' name auth_msg' (login p now raw name auth_msg s).1).0 ≡ err unauthorized
login_replayed p now later raw raw' name auth_msg auth_msg' s tokens h =
    let v = login-IsProven p now raw name auth_msg s tokens h in
    let s' = taken now name s in
    let e = login-grants p now raw name auth_msg s v in
    let left = grant-left p now raw name v.user.id s' in
    let gone = consume_twice now later name s.challenges in
    let reset = allowed-reset later name s.attempts in
    rw e (unfold login in ground (arith, left, gone, reset))
