-- ===== src/Server/Service/Auth.antt =====
-- internal/server/service/auth.go, over the in-memory repositories and the stores of
-- internal/server/auth. What the random source gives, and the new id, are arguments of a call.
pub mod Login
pub mod Honest
pub mod Outcome
use voldepass.Prelude.{String, Bool, Option, if◌then◌else◌}
use voldepass.Domain.{
  Bytes, Time, User, Profile, Result, ok, err, Error, unauthorized, not_found, rate_limited,
}
use voldepass.Server.Inmem.Users
use voldepass.Server.Inmem.Attempts
use voldepass.Server.Auth.Primitives.{Primitives}
use voldepass.Server.Auth.Challenge
use voldepass.Server.Auth.Refresh

pub record AuthTokens : Type 0 where
  pub access_token : String
  pub refresh_token : String

pub record Service : Type 0 where
  pub users : Users.Repository
  pub challenges : Challenge.Store
  pub refresh : Refresh.Service
  pub attempts : Attempts.Tracker

-- Register
unfoldable pub register : Time → String → String → Bytes → Profile → Service → Result User × Service
register now new_id login auth_verifier profile s =
    let u : User = record {
      id = new_id;
      login = login;
      auth_verifier = auth_verifier;
      created_at = now;
    } in
    let (r, users) = Users.create u (record profile { user_id = new_id }) s.users in
    elim r [
      | err e ↦ (err e, record s { users = users })
      | ok _ ↦ (ok u, record s { users = users })
    ]

-- Challenge
unfoldable pub challenge :
    Primitives → Time → Option Bytes → String → Service → Result (String × Profile) × Service
challenge p now raw login s = elim (Users.get_by_login login s.users) [
  | err e ↦ (err e, s)
  | ok u ↦ elim (Users.get_profile u.id s.users) [
    | err e ↦ (err e, s)
    | ok profile ↦
        let (nonce, challenges) = Challenge.issue p now raw login s.challenges in
        elim nonce [
          | err e ↦ (err e, record s { challenges = challenges })
          | ok n ↦ (ok (n, profile), record s { challenges = challenges })
        ]
  ]
]

-- verifyAuthMessage
unfoldable pub verify_auth_message : Primitives → Bytes → Bytes → Bytes → Bool
verify_auth_message p verifier server_nonce auth_msg =
    p.hmac_equal (p.hmac_sha256 verifier server_nonce) auth_msg

-- A login that failed is counted.
unfoldable pub deny : Time → String → Service → Result AuthTokens × Service
deny now login s = (err unauthorized, record s { attempts = Attempts.inc now login s.attempts })

-- The end of Login: the count is reset and the tokens are issued.
unfoldable pub grant :
    Primitives → Time → Option Bytes → String → String → Service → Result AuthTokens × Service
grant p now raw login user_id s =
    let s' : Service = record s { attempts = Attempts.reset login s.attempts } in
    elim (p.issue_jwt now user_id) [
      | err e ↦ (err e, s')
      | ok access ↦
          let (token, refresh) = Refresh.issue p now raw user_id s'.refresh in
          elim token [
            | err e ↦ (err e, record s' { refresh = refresh })
            | ok t ↦ (
              ok (record { access_token = access; refresh_token = t }),
              record s' { refresh = refresh },
            )
          ]
    ]

-- Login
unfoldable pub login :
    Primitives → Time → Option Bytes → String → Bytes → Service → Result AuthTokens × Service
unfolding verify_auth_message deny grant
login p now raw name auth_msg s =
    let (consumed, challenges) = Challenge.consume now name s.challenges in
    let s' : Service = record s { challenges = challenges } in
    if Attempts.allowed now name s.attempts
    then elim consumed [
      | err _ ↦ deny now name s'
      | ok nonce ↦ elim (Users.get_by_login name s.users) [
        | err _ ↦ deny now name s'
        | ok u ↦
            if verify_auth_message p u.auth_verifier (p.bytes_of nonce) auth_msg
            then grant p now raw name u.id s'
            else deny now name s'
      ]
    ]
    else (err rate_limited, s)

-- The error that Refresh returns for an error of Rotate.
unfoldable pub refresh_error : Error → Error
refresh_error unauthorized = unauthorized
refresh_error not_found = unauthorized
refresh_error e = e

-- Refresh
unfoldable pub refresh :
    Primitives → Time → Option Bytes → String → Service → Result AuthTokens × Service
unfolding refresh_error
refresh p now raw token s =
    let (rotated, store) = Refresh.rotate p now raw token s.refresh in
    let s' : Service = record s { refresh = store } in
    elim rotated [
      | err e ↦ (err (refresh_error e), s')
      | ok (t, user_id) ↦ elim (p.issue_jwt now user_id) [
        | err e ↦ (err e, s')
        | ok access ↦ (ok (record { access_token = access; refresh_token = t }), s')
      ]
    ]
