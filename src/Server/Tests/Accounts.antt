-- ===== src/Server/Tests/Accounts.antt =====
-- Runs of logins, challenges, refresh tokens and the limit on logins.
use voldepass.Prelude.{
  ℕ, zero, suc, String, Bool, ◌≡◌, refl, true, false, none, some, [], ◌∷◌, ◌+◌, ◌⊎◌, arith, eq_iff,
  eqb, eqb_refl, ◌&&◌,
}
use mathlib.Core.List.{◌++◌}
use Prim.Native.String as Text
use voldepass.GoMap.{lookup, delete}
use voldepass.Domain.{Bytes, User, Profile, ok, err, unauthorized, rate_limited, int64_zero}
use voldepass.Server.Inmem.Users
use voldepass.Server.Inmem.Tokens
use voldepass.Server.Inmem.Attempts
use voldepass.Server.Inmem.Attempts.Window.{inc_all, allowed-inc_all}
use voldepass.Server.Auth.Primitives.{Primitives}
use voldepass.Server.Auth.Challenge
use voldepass.Server.Auth.Refresh
use voldepass.Server.Auth.Refresh.Theft.{rotate_stolen}
use voldepass.Server.Service.Auth.{
  Service, AuthTokens, register, challenge, verify_auth_message, grant, login,
}
use voldepass.Server.Service.Auth.Login.{IsProven, login-IsProven, login_replayed}
use voldepass.Server.Service.Auth.Outcome.{IsDenied, IsPassed, login_cases}
use voldepass.Server.Service.Auth.Honest.{register_then_login}

-- Primitives that compute: a number is written in strokes, a message is authenticated by itself.
abbrev strokes : ℕ → String
strokes zero = "."
strokes (suc n) = Text.◌++◌ "|" (strokes n)

abbrev hex : Bytes → String
hex [] = ""
hex (b ∷ bs) = Text.◌++◌ (strokes b) (hex bs)

abbrev equal : Bytes → Bytes → Bool
equal [] [] = true
equal (a ∷ rest) (b ∷ bs) = eqb a b && equal rest bs
equal [] (b ∷ bs) = false
equal (a ∷ rest) [] = false

equal_refl : (b : Bytes) → equal b b ≡ true
equal_refl [] = refl
equal_refl (b ∷ bs) = ground (arith, eqb_refl b, equal_refl bs)

abbrev primitives : Primitives
primitives = record {
  hex_encode = hex;
  sha256 = λ b. b;
  bytes_of = λ s. Text.count s ∷ [];
  hmac_sha256 = λ key message. key ++ message;
  hmac_equal = equal;
  issue_jwt = λ now user_id. ok user_id;
}

abbrev bob : String
bob = "bob"

abbrev profile : Profile
profile = record {
  user_id = "";
  kdf_salt = 1 ∷ [];
  kdf_params = record { time = 2; memory = 65536; threads = 4; key_len = 32 };
  wrapped_data_key = 2 ∷ [];
  profile_version = 1;
}

abbrev empty_service : Service
empty_service = record {
  users = record { by_id = []; by_login = []; profiles = [] };
  challenges = record { challenges = []; ttl = 60 };
  refresh = record { store = record { tokens = [] }; ttl = 1000 };
  attempts = record { attempts = []; max_attempts = int64_zero + 5; window = 100 };
}

register_then_login_example :
    let s1 = (register 1 "u1" bob (3 ∷ []) profile empty_service).1 in
    let s2 = (challenge primitives 2 (some (4 ∷ [])) bob s1).1 in
    (login primitives 5 (some (6 ∷ [])) bob (3 ∷ 5 ∷ []) s2).0
    ≡ ok (record { access_token = "u1"; refresh_token = "||||||." })
unfolding lookup
register_then_login_example =
    register_then_login primitives 1 2 5 "u1" bob "u1" (3 ∷ []) (4 ∷ []) (6 ∷ []) profile
      empty_service refl refl (omega arith) equal_refl refl

-- The service after bob registered and asked for a challenge.
abbrev bob_user : User
bob_user = record { id = "u1"; login = bob; auth_verifier = 3 ∷ []; created_at = 1 }

abbrev asked : Service
asked = record empty_service {
  users = record {
    by_id = ("u1", bob_user) ∷ [];
    by_login = (bob, bob_user) ∷ [];
    profiles = ("u1", profile) ∷ [];
  };
  challenges = record {
    challenges = (bob, record { nonce = "||||."; expires_at = 62 }) ∷ [];
    ttl = 60;
  };
}

abbrev tokens : AuthTokens
tokens = record { access_token = "u1"; refresh_token = "||||||." }

login-IsProven_example : IsProven primitives 5 bob (3 ∷ 5 ∷ []) asked
unfolding login grant verify_auth_message Attempts.allowed Attempts.reset Challenge.consume
    Users.get_by_login Refresh.issue lookup delete
login-IsProven_example =
    login-IsProven primitives 5 (some (6 ∷ [])) bob (3 ∷ 5 ∷ []) asked tokens refl

login_replayed_example :
    (login primitives 6
      (some (7 ∷ []))
      bob
      (3 ∷ 5 ∷ [])
      (login primitives 5 (some (6 ∷ [])) bob (3 ∷ 5 ∷ []) asked).1).0
    ≡ err unauthorized
unfolding login grant verify_auth_message Attempts.allowed Attempts.reset Challenge.consume
    Users.get_by_login Refresh.issue lookup delete
login_replayed_example =
    login_replayed primitives 5 6 (some (6 ∷ [])) (some (7 ∷ [])) bob (3 ∷ 5 ∷ []) (3 ∷ 5 ∷ [])
      asked tokens refl

login_cases_example :
    ((Attempts.allowed 5 bob asked.attempts ≡ false)
      × (login primitives 5 (some (6 ∷ [])) bob (3 ∷ 5 ∷ []) asked ≡ (err rate_limited, asked)))
    ⊎ (IsDenied primitives 5 6 bob
          (3 ∷ 5 ∷ [])
          asked
          (login primitives 5 (some (6 ∷ [])) bob (3 ∷ 5 ∷ []) asked)
        ⊎ IsPassed primitives 5 6
            (some (6 ∷ []))
            bob
            (3 ∷ 5 ∷ [])
            asked
            (login primitives 5 (some (6 ∷ [])) bob (3 ∷ 5 ∷ []) asked))
login_cases_example = login_cases primitives 5 6 (some (6 ∷ [])) bob (3 ∷ 5 ∷ []) asked

-- A refresh token of four characters, in strokes.
abbrev old_token : String
old_token = "|||."

abbrev live : Tokens.Entry
live = record { user_id = "u1"; expires_at = 1000; revoked = false }

abbrev issued : Refresh.Service
issued = record { store = record { tokens = ("||||.", live) ∷ [] }; ttl = 1000 }

rotate_stolen_example :
    let s' = (Refresh.rotate primitives 9 (some (7 ∷ [])) old_token issued).1 in
    let s'' = (Refresh.rotate primitives 20 none old_token s').1 in
    ((Refresh.rotate primitives 20 none old_token s').0 ≡ err unauthorized)
    × ((Refresh.rotate primitives 30 none "|||||||." s'').0 ≡ err unauthorized)
unfolding lookup Refresh.hash_token
rotate_stolen_example =
    rotate_stolen primitives 9 20 30 (7 ∷ []) none none old_token issued live refl refl
      (omega arith) (λ e. ground (arith, eq_iff "||||." "||||||||."))

allowed-inc_all_example :
    Attempts.allowed 50 bob
      (inc_all (20 ∷ 30 ∷ 40 ∷ 45 ∷ []) bob (Attempts.inc 10 bob empty_service.attempts))
    ≡ false
unfolding lookup
allowed-inc_all_example =
    allowed-inc_all 10 50 (20 ∷ 30 ∷ 40 ∷ 45 ∷ []) bob empty_service.attempts refl
      (omega arith, (omega arith, (omega arith, (omega arith, tt)))) (omega arith) (omega arith)
