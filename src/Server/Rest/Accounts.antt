-- ===== src/Server/Rest/Accounts.antt =====
-- internal/server/rest/auth_handlers.go, and LoginRateLimit of middleware.go, over the service. What
-- encoding/json makes of a body is given, for the limit and for the handler behind it.
pub mod Limits
use voldepass.Prelude.{ℕ, String, Bool, ◌==◌, ◌≡◌, Option, none, some, if◌then◌else◌}
use voldepass.Domain.{
  Bytes, Time, KdfParams, Profile, User, Result, ok, err, rate_limited, payload_too_large, ◌>>=◌,
}
use voldepass.Server.Inmem.Attempts
use voldepass.Server.Auth.Primitives.{Primitives}
use voldepass.Server.Service.Auth
use voldepass.Server.Service.Auth.{Service, AuthTokens}
use voldepass.Server.Rest.{
  Reply, replied, failed, respond, Body, decoded, malformed, over_limit, decode_error, status_of,
  validate_short_string,
}

-- registerRequest
pub record RegisterRequest : Type 0 where
  pub login : String
  pub auth_verifier : Bytes
  pub kdf_salt : Bytes
  pub kdf_params : KdfParams
  pub wrapped_data_key : Bytes

-- challengeResponse
pub record ChallengeResponse : Type 0 where
  pub server_nonce : String
  pub kdf_salt : Bytes
  pub kdf_params : KdfParams
  pub wrapped_data_key : Bytes

-- loginRequest
pub record LoginRequest : Type 0 where
  pub login : String
  pub auth_msg : Bytes

abbrev pub profile_of : RegisterRequest → Profile
profile_of req = record {
  user_id = "";
  kdf_salt = req.kdf_salt;
  kdf_params = req.kdf_params;
  wrapped_data_key = req.wrapped_data_key;
  profile_version = 1;
}

-- AuthHandlers.Register, with the two tests on strings that the handlers' checks share.
unfoldable pub register :
    (String → Bool)
    → (String → ℕ)
    → Time
    → String
    → Body RegisterRequest
    → Service
    → Reply (String × String) × Service
unfolding decode_error validate_short_string
register is_uuid byte_length now new_id body s =
    let checked : Result RegisterRequest = decode_error body >>= λ req.
    validate_short_string is_uuid byte_length req.login >>= λ _. ok req in
    elim checked [
      | err e ↦ (failed (status_of e), s)
      | ok req ↦
          let (r, s') = Auth.register now new_id req.login req.auth_verifier (profile_of req) s in
          (respond 201 (r >>= λ u. ok (u.id, u.login)), s')
    ]

-- AuthHandlers.Challenge
unfoldable pub challenge :
    Primitives → Time → Option Bytes → Body String → Service → Reply ChallengeResponse × Service
unfolding decode_error
challenge p now raw body s = elim (decode_error body) [
  | err e ↦ (failed (status_of e), s)
  | ok login ↦
      let (r, s') = Auth.challenge p now raw login s in
      (
        respond 200 (
            r >>= λ (nonce, profile). ok (record {
              server_nonce = nonce;
              kdf_salt = profile.kdf_salt;
              kdf_params = profile.kdf_params;
              wrapped_data_key = profile.wrapped_data_key;
            })),
        s',
      )
]

-- AuthHandlers.Login
unfoldable pub login :
    Primitives → Time → Option Bytes → Body LoginRequest → Service → Reply AuthTokens × Service
unfolding decode_error
login p now raw body s = elim (decode_error body) [
  | err e ↦ (failed (status_of e), s)
  | ok req ↦ let (r, s') = Auth.login p now raw req.login req.auth_msg s in (respond 200 r, s')
]

-- AuthHandlers.Refresh
unfoldable pub refresh :
    Primitives → Time → Option Bytes → Body String → Service → Reply AuthTokens × Service
unfolding decode_error
refresh p now raw body s = elim (decode_error body) [
  | err e ↦ (failed (status_of e), s)
  | ok token ↦ let (r, s') = Auth.refresh p now raw token s in (respond 200 r, s')
]

-- LoginRateLimit: the status with which a request is refused. `seen` is the login that the middleware
-- reads in the body; a body that it cannot read, or one without a login, goes on to the handler.
unfoldable pub login_rate_limit : Time → Body String → Service → Option ℕ
login_rate_limit now over_limit s = some (status_of payload_too_large)
login_rate_limit now malformed s = none
login_rate_limit now (decoded name) s =
    if name == ""
    then none
    else if Attempts.allowed now name s.attempts
    then none
    else some (status_of rate_limited)

-- POST /login: LoginRateLimit in front of AuthHandlers.Login.
unfoldable pub limited_login :
    Primitives
    → Time
    → Option Bytes
    → Body String
    → Body LoginRequest
    → Service
    → Reply AuthTokens × Service
unfolding login_rate_limit login
limited_login p now raw seen body s = elim (login_rate_limit now seen s) [
  | some status ↦ (failed status, s)
  | none ↦ login p now raw body s
]
