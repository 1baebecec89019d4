-- ===== src/Server/Tests/Handlers.antt =====
-- Runs of the handlers of accounts.
use voldepass.Prelude.{String, Bool, ◌≡◌, ◌==◌, false, none, [], ◌∷◌, ◌+◌}
use voldepass.Domain.{int64_zero, err, internal, default_kdf_params}
use voldepass.Server.Auth.Primitives.{Primitives}
use voldepass.Server.Service.Auth.{Service}
use voldepass.Server.Rest.{decoded}
use voldepass.Server.Rest.Accounts.{RegisterRequest, LoginRequest, login, limited_login}
use voldepass.Server.Rest.Accounts.Limits.{limited_login-login}

abbrev carol : RegisterRequest
carol = record {
  login = "carol";
  auth_verifier = 3 ∷ [];
  kdf_salt = 1 ∷ [];
  kdf_params = default_kdf_params;
  wrapped_data_key = 2 ∷ [];
}

-- The same login with other keys.
abbrev impostor : RegisterRequest
impostor = record carol { auth_verifier = 4 ∷ [] }

-- A service on which carol has failed to log in five times.
abbrev locked : Service
locked = record {
  users = record { by_id = []; by_login = []; profiles = [] };
  challenges = record { challenges = []; ttl = 60 };
  refresh = record { store = record { tokens = [] }; ttl = 1000 };
  attempts = record {
    attempts = ("carol", record { count = int64_zero + 5; window_end = 100 }) ∷ [];
    max_attempts = int64_zero + 5;
    window = 100;
  };
}

-- Primitives that refuse.
abbrev deaf : Primitives
deaf = record {
  hex_encode = λ b. "";
  sha256 = λ b. b;
  bytes_of = λ s. [];
  hmac_sha256 = λ key message. key;
  hmac_equal = λ a b. false;
  issue_jwt = λ now user_id. err internal;
}

abbrev carol_answer : String × String
carol_answer = ("u1", "carol")

abbrev is_uuid : String → Bool
is_uuid id = id == "u1"

abbrev guess : LoginRequest
guess = record { login = "carol"; auth_msg = 9 ∷ [] }

limited_login-login_example :
    limited_login deaf 50 none (decoded "carol") (decoded guess) locked
    ≡ login deaf 50 none (decoded guess) locked
limited_login-login_example = limited_login-login deaf 50 none guess locked
