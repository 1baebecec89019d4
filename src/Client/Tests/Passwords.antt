-- ===== src/Client/Tests/Passwords.antt =====
-- Runs of the estimate of a password.
use voldepass.Prelude.{◌+◌, ◌≡◌, refl, some, true, false, [], ◌∷◌, leb, ◌&&◌}
use voldepass.Domain.{Bytes, int64_zero}
use voldepass.Client.Crypto.Generator.{
  GenerateOptions, generate_password, password_length, required, alphabet, charset_lower,
  charset_upper, charset_digits,
}
use voldepass.Client.Crypto.Generator.Strong.{IsStrong, generate_password-IsStrong}
use voldepass.Client.Tests.Sealing.{random}
use voldepass.Client.Crypto.Strength.{Unicode}

-- The classes of ASCII; the lower case is left out, since no common password is as long as this one.
abbrev pub ascii : Unicode
ascii = record {
  is_lower = λ c. leb 97 c && leb c 122;
  is_upper = λ c. leb 65 c && leb c 90;
  is_digit = λ c. leb 48 c && leb c 57;
  is_punct = λ c. leb 33 c && leb c 47;
  is_symbol = λ c. false;
  decode = λ b. b;
  to_lower = λ b. "";
}

-- Aa1aaaaaaaaaaaaa
abbrev long_password : Bytes
long_password = 65 ∷ 97 ∷ 49 ∷ 97 ∷ 97 ∷ 97 ∷ 97 ∷ 97 ∷ 97 ∷ 97 ∷ 97 ∷ 97 ∷ 97 ∷ 97 ∷ 97 ∷ 97 ∷ []

-- Five characters are asked for, without symbols.
abbrev short : GenerateOptions
short = record { length = int64_zero + 5; no_symbols = true; no_digits = false; no_upper = false }

generate_password-IsStrong_example :
    (password : Bytes) × (some (97 ∷ 97 ∷ 65 ∷ 48 ∷ 97 ∷ 97 ∷ 97 ∷ 97 ∷ []) ≡ some password)
    × IsStrong short password
unfolding generate_password password_length required alphabet charset_lower charset_upper
    charset_digits
generate_password-IsStrong_example =
    generate_password-IsStrong random short tt (some (97 ∷ 97 ∷ 65 ∷ 48 ∷ 97 ∷ 97 ∷ 97 ∷ 97 ∷ []))
      refl
