-- ===== src/Server/Auth/Primitives.antt =====
-- What the server takes from crypto/*, encoding/hex and golang-jwt, and does not implement.
use voldepass.Prelude.{String, Bool}
use voldepass.Domain.{Bytes, Time, Result}

pub record Primitives : Type 0 where
  pub hex_encode : Bytes → String
  pub sha256 : Bytes → Bytes
  -- []byte(s)
  pub bytes_of : String → Bytes
  -- hmac.New(sha256.New, key), Write(message), Sum(nil)
  pub hmac_sha256 : Bytes → Bytes → Bytes
  pub hmac_equal : Bytes → Bytes → Bool
  -- JWTManager.Issue, which signs by golang-jwt.
  pub issue_jwt : Time → String → Result String
