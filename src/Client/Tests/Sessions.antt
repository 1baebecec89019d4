-- ===== src/Client/Tests/Sessions.antt =====
-- Runs of the pinning of a certificate and of the one-time codes.
use voldepass.Prelude.{
  ℕ, ◌+◌, ◌-◌, ◌≡◌, ◌↔◌, refl, ◌<◌, ◌≤◌, ◌^◌, String, false, some, [], ◌∷◌, arith, ltb, eqb, lt→ltb,
  if◌then◌else◌,
}
use voldepass.Domain.{Bytes, int64_zero, ok}
use voldepass.Client.Transport.Pinning.{
  verify_peer_certificate, Presents, verify_peer_certificate_iff,
}
use voldepass.Client.Crypto.Totp.{code}
use voldepass.Client.Crypto.Totp.Code.{
  Library, sha1, pad_secret, hash_of, generate_totp, generate_totp-some,
}

-- The sum of RFC 4226, section 5.4, for which the code is 872921.
abbrev sum : Bytes
sum =
    31 ∷ 134 ∷ 152 ∷ 105 ∷ 14 ∷ 2 ∷ 202 ∷ 22 ∷ 97 ∷ 133 ∷ 80 ∷ 239 ∷ 127 ∷ 25 ∷ 218 ∷ 142 ∷ 148 ∷ 91
    ∷ 85 ∷ 90 ∷ []

code-sum : code 6 sum ≡ some 872921
unfolding code
code-sum = refl

-- Secrets that are their own bytes, one hash, and decimal powers.
power : ℕ → ℕ
power n = if ltb n int64_zero then 0 else 10 ^ (n - int64_zero)

power_small : (n : ℕ) → n ≤ 9 → power (int64_zero + n) ≡ 10 ^ n
unfolding power
power_small n h =
    let e : int64_zero + n - int64_zero ≡ n = omega arith in
    let large : ltb (int64_zero + n) int64_zero ≡ false = ground arith in rw (power, large, e) refl

power_negative : (n : ℕ) → n < int64_zero → power n ≡ 0
unfolding power
power_negative n h = rw (power, lt→ltb n int64_zero h) refl

abbrev library : Library
library = record {
  normal_secret = λ b. b;
  normal_name = λ b. "SHA1";
  decode_base32 = λ b. ok b;
  hmac = λ h k message. sum;
  pow10 = power;
  print = λ width x. x ∷ [];
  length-hmac = λ h k message. omega arith;
  pow10_small = power_small;
  pow10_negative = power_negative;
}

abbrev secret : Bytes
secret = 65 ∷ 66 ∷ 67 ∷ 68 ∷ 65 ∷ 66 ∷ 67 ∷ 68 ∷ []

generate_totp-some_example :
    (x : ℕ) × (generate_totp library secret [] (int64_zero + 8) int64_zero 90
      ≡ some (ok (library.print (int64_zero + 8) x)))
    × (x < 10 ^ 8)
unfolding pad_secret hash_of
generate_totp-some_example =
    generate_totp-some library secret [] secret sha1 8 int64_zero 90 (omega arith) refl refl

-- A fingerprint that tells only the certificate 7.
abbrev fingerprint : Bytes → String
fingerprint raw = elim raw [ [] ↦ "" | b ∷ rest ↦ if eqb b 7 then "pinned" else "other" ]

verify_peer_certificate_iff_example :
    (verify_peer_certificate fingerprint "pinned" ((1 ∷ []) ∷ (7 ∷ []) ∷ []) ≡ ok tt)
    ↔ Presents fingerprint "pinned" ((1 ∷ []) ∷ (7 ∷ []) ∷ [])
verify_peer_certificate_iff_example =
    verify_peer_certificate_iff fingerprint "pinned" ((1 ∷ []) ∷ (7 ∷ []) ∷ [])
