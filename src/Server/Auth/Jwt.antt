-- ===== src/Server/Auth/Jwt.antt =====
-- internal/server/auth/jwt.go, over golang-jwt as a parameter.
use voldepass.Prelude.{String, ◌≡◌, refl, Bool, true, Option, some, ◌+◌, ◌≤◌, ◌^◌}
use voldepass.Domain.{Bytes, Time, Result, ok, err, internal, ◌>>=◌}

pub record Claims : Type 0 where
  pub subject : String
  pub issued_at : Time
  pub expires_at : Time
  pub user_id : String

-- The method that the header of a token names: one of the HMAC family, or another.
pub data Method : Type 0 where
  hmac other_method : Method

-- NewWithClaims with HS256 and SignedString; ParseWithClaims, which asks for the key of a method, and
-- gives the claims, if they have the type, with whether the token is valid. A token that was signed
-- with the key that the function gives is read back until its time is over, to the second.
pub record Library : Type 0 where
  pub signed_string : Bytes → Claims → Result String
  pub parse_with_claims : (Method → Result Bytes) → Time → String → Result (Option Claims × Bool)
  pub parse-signed :
      (key : Method → Result Bytes) (secret : Bytes) (c : Claims) (token : String) (now : Time)
      → signed_string secret c ≡ ok token
      → key hmac ≡ ok secret
      → now + 10 ^ 9 ≤ c.expires_at
      → (c' : Claims) × (c'.user_id ≡ c.user_id)
        × (parse_with_claims key now token ≡ ok (some c', true))

-- NewJWTManager
pub record JwtManager : Type 0 where
  pub secret : Bytes
  pub ttl : Time

-- The key function of Parse
unfoldable pub key_of : JwtManager → Method → Result Bytes
key_of m hmac = ok m.secret
key_of m other_method = err internal

module _ (l : Library) where
  -- Issue
  unfoldable pub issue : Time → String → JwtManager → Result String
  issue now user_id m =
      l.signed_string m.secret
        (record { subject = user_id; issued_at = now; expires_at = now + m.ttl; user_id = user_id })

  -- The end of Parse
  abbrev pub user_of : Option Claims × Bool → Result String
  user_of (some c, true) = ok c.user_id
  user_of other = err internal

  -- Parse
  unfoldable pub parse : Time → String → JwtManager → Result String
  unfolding key_of
  parse now token m = l.parse_with_claims (key_of m) now token >>= user_of

  -- A token that was issued names its user until a second before its time to live is over.
  pub parse-issue :
      (now later : Time) (user_id token : String) (m : JwtManager)
      → issue now user_id m ≡ ok token
      → later + 10 ^ 9 ≤ now + m.ttl
      → parse later token m ≡ ok user_id
  unfolding issue parse key_of
  parse-issue now later user_id token m issued live =
      let (c, same, read) =
        l.parse-signed (key_of m) m.secret
          (record {
            subject = user_id;
            issued_at = now;
            expires_at = now + m.ttl;
            user_id = user_id;
          })
          token later issued refl live in
      rw (read, same) refl
