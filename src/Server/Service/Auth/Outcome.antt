-- ===== src/Server/Service/Auth/Outcome.antt =====
-- The answer of a login and all that it leaves behind, on every branch.
use voldepass.Prelude.{
  String, ◌≡◌, refl, ap, true, false, Option, none, some, ◌+◌, ◌⊎◌, inl, inr, arith, Bool-cases,
}
use voldepass.GoMap.{insert, delete}
use voldepass.Domain.{
  Bytes, Time, User, Result, ok, err, Error, internal, unauthorized, rate_limited, Result-cases,
}
use voldepass.Server.Inmem.Attempts
use voldepass.Server.Inmem.Tokens
use voldepass.Server.Inmem.Users
use voldepass.Server.Auth.Primitives.{Primitives}
use voldepass.Server.Auth.Challenge
use voldepass.Server.Auth.Challenge.OneTime.{consume_twice}
use voldepass.Server.Auth.Refresh
use voldepass.Server.Service.Auth.{AuthTokens, Service, grant, login}
use voldepass.Server.Service.Auth.Login.{IsProven, taken, login-grants, grant-left}

abbrev pub Answer : Type 0
Answer = Result AuthTokens × Service

-- The service after a login whose count is reset.
abbrev pub cleared : String → Service → Service
cleared name s = record s {
  attempts = record s.attempts { attempts = delete name s.attempts.attempts };
}

-- The service with the hash of a new refresh token, which is live for the time to live.
abbrev pub with_token : Primitives → Time → String → String → Service → Service
with_token p now user_id token s = record s {
  refresh = record s.refresh {
    store = record {
      tokens =
          insert (Refresh.hash_token p token)
            (record { user_id = user_id; expires_at = now + s.refresh.ttl; revoked = false })
            s.refresh.store.tokens;
    };
  };
}

-- The tokens are issued, or it is reported why not: the access token cannot be signed, or there is
-- no random source for the refresh token. The count is reset in each case.
abbrev pub IsGranted :
    Primitives → Time → Option Bytes → String → String → Service → Answer → Type 0
IsGranted p now raw name user_id s answer =
    ((e : Error) × (p.issue_jwt now user_id ≡ err e) × (answer ≡ (err e, cleared name s)))
    ⊎ ((access : String) × (p.issue_jwt now user_id ≡ ok access)
        × (((raw ≡ none) × (answer ≡ (err internal, cleared name s)))
            ⊎ ((bytes : Bytes) × (raw ≡ some bytes)
                × (answer ≡ (
                  ok (record { access_token = access; refresh_token = p.hex_encode bytes }),
                  with_token p now user_id (p.hex_encode bytes) (cleared name s),
                )))))

grant-IsGranted :
    (p : Primitives) (now : Time) (raw : Option Bytes) (name user_id : String) (s : Service)
    → IsGranted p now raw name user_id s (grant p now raw name user_id s)
unfolding grant Refresh.issue Attempts.reset Tokens.save
grant-IsGranted p now none name user_id s = elim (Result-cases (p.issue_jwt now user_id)) [
  | inr (e, failed) ↦ inl (e, failed, rw (grant, failed) refl)
  | inl (access, signed) ↦ inr (access, signed, inl (refl, rw (grant, signed) refl))
]
grant-IsGranted p now (some bytes) name user_id s = elim (Result-cases (p.issue_jwt now user_id)) [
  | inr (e, failed) ↦ inl (e, failed, rw (grant, failed) refl)
  | inl (access, signed) ↦ inr (access, signed, inr (bytes, refl, rw (grant, signed) refl))
]

-- The message does not answer the login's challenge, so it cannot be proven.
refuted :
    (p : Primitives) (now : Time) (name nonce : String) (auth_msg : Bytes) (s : Service) (u : User)
    → (Challenge.consume now name s.challenges).0 ≡ ok nonce
    → Users.get_by_login name s.users ≡ ok u
    → p.hmac_equal (p.hmac_sha256 u.auth_verifier (p.bytes_of nonce)) auth_msg ≡ false
    → ¬ IsProven p now name auth_msg s
refuted p now name nonce auth_msg s u live known wrong v =
    let a = v.is_challenge in
    let b = v.is_user in
    let c = v.answers in
    let same_nonce : v.nonce ≡ nonce = ground arith in
    let same_user : v.user ≡ u = ground arith in absurd (ground arith)

-- The login has no challenge that a later Consume would give.
abbrev pub IsSpent : Time → String → Answer → Type 0
IsSpent later name answer = (Challenge.consume later name answer.1.challenges).0 ≡ err internal

-- Refused within the limit: the login is not proven, the challenge is taken and the failure counted.
abbrev pub IsDenied : Primitives → Time → Time → String → Bytes → Service → Answer → Type 0
IsDenied p now later name auth_msg s answer =
    (Attempts.allowed now name s.attempts ≡ true)
    × (¬ IsProven p now name auth_msg s)
    × (answer ≡ (
      err unauthorized,
      record (taken now name s) { attempts = Attempts.inc now name s.attempts },
    ))
    × IsSpent later name answer

-- Proven: what grants the tokens runs with the challenge taken.
abbrev pub IsPassed :
    Primitives → Time → Time → Option Bytes → String → Bytes → Service → Answer → Type 0
IsPassed p now later raw name auth_msg s answer =
    (v : IsProven p now name auth_msg s) × IsGranted p now raw name v.user.id (taken now name s)
      answer
    × IsSpent later name answer

taken-IsSpent :
    (now later : Time) (name : String) (s : Service)
    → (Challenge.consume later name (taken now name s).challenges).0 ≡ err internal
taken-IsSpent now later name s =
    ap (λ (r : Result String × Challenge.Store). r.0) (consume_twice now later name s.challenges)

login-IsDenied :
    (p : Primitives) (now later : Time) (raw : Option Bytes) (name : String) (auth_msg : Bytes)
    (s : Service)
    → Attempts.allowed now name s.attempts ≡ true
    → ¬ IsProven p now name auth_msg s
    → login p now raw name auth_msg s ≡ (
      err unauthorized,
      record (taken now name s) { attempts = Attempts.inc now name s.attempts },
    )
    → IsDenied p now later name auth_msg s (login p now raw name auth_msg s)
login-IsDenied p now later raw name auth_msg s room unproven e =
    (room, unproven, e, rw e (taken-IsSpent now later name s))

login-IsPassed :
    (p : Primitives) (now later : Time) (raw : Option Bytes) (name : String) (auth_msg : Bytes)
    (s : Service)
    → IsProven p now name auth_msg s
    → IsPassed p now later raw name auth_msg s (login p now raw name auth_msg s)
login-IsPassed p now later raw name auth_msg s v =
    let left = (grant-left p now raw name v.user.id (taken now name s)).0 in
    rw (login-grants p now raw name auth_msg s v) (
      v,
      grant-IsGranted p now raw name v.user.id (taken now name s),
      rw left (taken-IsSpent now later name s),
    )

-- Every login ends in one of three ways. Over the limit, it is refused and nothing changes. Within
-- the limit but not proven, it is refused as unauthorized, the challenge is taken and the failure is
-- counted. Within the limit and proven, the challenge is taken and the count of failures is removed;
-- and either an error of the signing of the access token or of the random source is returned, or
-- both tokens are, with the hash of the refresh token stored as a live one of that user for the time
-- to live. Where the challenge was taken, a later one of that login fails until one is issued again.
pub login_cases :
    (p : Primitives) (now later : Time) (raw : Option Bytes) (name : String) (auth_msg : Bytes)
    (s : Service)
    → let answer = login p now raw name auth_msg s in
      ((Attempts.allowed now name s.attempts ≡ false) × (answer ≡ (err rate_limited, s)))
      ⊎ (IsDenied p now later name auth_msg s answer
          ⊎ IsPassed p now later raw name auth_msg s answer)
login_cases p now later raw name auth_msg s =
    let denied = login-IsDenied p now later raw name auth_msg s in
    elim (Bool-cases (Attempts.allowed now name s.attempts)) [
      | inr over ↦ inl (over, unfold login in ground arith)
      | inl room ↦ inr (elim (Result-cases (Challenge.consume now name s.challenges).0) [
        | inr (e, none_left) ↦ inl (
            denied room (λ v. let live = v.is_challenge in absurd (ground arith))
              (unfold login in ground arith))
        | inl (nonce, live) ↦ elim (Result-cases (Users.get_by_login name s.users)) [
          | inr (e, unknown) ↦ inl (
              denied room (λ v. let known = v.is_user in absurd (ground arith))
                (unfold login in ground arith))
          | inl (u, known) ↦
              elim (Bool-cases
                (p.hmac_equal (p.hmac_sha256 u.auth_verifier (p.bytes_of nonce)) auth_msg)) [
                  | inr wrong ↦ inl (
                      denied room (refuted p now name nonce auth_msg s u live known wrong)
                        (unfold login in ground arith))
                  | inl right ↦ inr (
                      login-IsPassed p now later raw name auth_msg s (record {
                        within_limit = room;
                        user = u;
                        is_user = known;
                        nonce = nonce;
                        is_challenge = live;
                        answers = right;
                      }))
                ]
        ]
      ])
    ]
