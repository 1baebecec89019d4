-- ===== src/Client/Crypto/Totp/Code.antt =====
-- internal/client/crypto/totp.go: hotp and GenerateTOTP. `none` stands for a panic.
use voldepass.Prelude.{
  ℕ, zero, suc, ◌+◌, ◌-◌, ◌/◌, ◌%◌, ◌^◌, ◌≤◌, ◌<◌, ◌≡◌, refl, String, false, Option, none, some, [],
  ◌∷◌, ◌++◌, ◌==◌, ◌||◌, eqb, length, arith, if◌then◌else◌, inl, inr, Option-cases,
}
use voldepass.Domain.{Bytes, Int64, int64_zero, Result, ok, err, internal, Result-cases}
use voldepass.Client.Crypto.Totp.{truncate, code, code-some, pow_pos}

-- The hash functions of hotp.
pub data Hash : Type 0 where
  sha1 sha256 sha512 : Hash

-- What the codes use of the libraries: strings.ToUpper and TrimSpace on the secret, ToUpper on the
-- algorithm's name, base32, HMAC, uint32(math.Pow10(n)), and fmt's %0*d. A sum has the 20 bytes of SHA-1
-- at least. A power of ten is exact as long as it fits into 32 bits; one with a negative
-- exponent is below 1, and the conversion drops its fraction.
pub record Library : Type 0 where
  pub normal_secret : Bytes → Bytes
  pub normal_name : Bytes → String
  pub decode_base32 : Bytes → Result Bytes
  pub hmac : Hash → Bytes → Bytes → Bytes
  pub pow10 : Int64 → ℕ
  pub print : Int64 → ℕ → Bytes
  pub length-hmac : (h : Hash) (key message : Bytes) → 20 ≤ length (hmac h key message)
  pub pow10_small : (n : ℕ) → n ≤ 9 → pow10 (int64_zero + n) ≡ 10 ^ n
  pub pow10_negative : (n : Int64) → n < int64_zero → pow10 n ≡ 0

-- binary.BigEndian.PutUint64
unfoldable pub put_uint64 : ℕ → Bytes
put_uint64 x =
    (x / 2 ^ 56 % 256)
    ∷ (x / 2 ^ 48 % 256)
    ∷ (x / 2 ^ 40 % 256)
    ∷ (x / 2 ^ 32 % 256)
    ∷ (x / 2 ^ 24 % 256)
    ∷ (x / 2 ^ 16 % 256)
    ∷ (x / 2 ^ 8 % 256)
    ∷ (x % 256)
    ∷ []

-- uint64 of an int64
unfoldable pub to_uint64 : Int64 → ℕ
to_uint64 x = (x + 2 ^ 63) % 2 ^ 64

-- The padding of the secret to a multiple of 8 characters; 61 is "=".
unfoldable pub padding : ℕ → Bytes
padding zero = []
padding (suc n) = 61 ∷ padding n

unfoldable pub pad_secret : Bytes → Bytes
unfolding padding
pad_secret secret =
    let rem = length secret % 8 in if eqb rem 0 then secret else secret ++ padding (8 - rem)

module _ (lib : Library) where
  -- The choice of the hash in hotp.
  unfoldable pub hash_of : Bytes → Result Hash
  hash_of algorithm =
      let name = lib.normal_name algorithm in
      if (name == "") || (name == "SHA1")
      then ok sha1
      else if name == "SHA256"
      then ok sha256
      else if name == "SHA512"
      then ok sha512
      else err internal

  -- The end of hotp: a division by zero panics.
  unfoldable pub cut : Int64 → Bytes → Option Bytes
  cut digits sum = elim (truncate sum) [
    | none ↦ none
    | some w ↦
        let modulus = lib.pow10 digits in
        if eqb modulus 0 then none else some (lib.print digits (w % modulus))
  ]

  -- hotp
  unfoldable pub hotp : Bytes → ℕ → Bytes → Int64 → Option (Result Bytes)
  unfolding cut put_uint64
  hotp key counter algorithm digits = elim (hash_of algorithm) [
    | err e ↦ some (err e)
    | ok h ↦ elim (cut digits (lib.hmac h key (put_uint64 counter))) [
      | none ↦ none
      | some text ↦ some (ok text)
    ]
  ]

  -- totpDefaultDigits, totpDefaultPeriod
  unfoldable pub or_default : ℕ → Int64 → Int64
  or_default n x = if eqb x int64_zero then int64_zero + n else x

  -- GenerateTOTP, at a time in seconds since 1970
  unfoldable pub generate_totp : Bytes → Bytes → Int64 → Int64 → ℕ → Option (Result Bytes)
  unfolding hotp or_default to_uint64 pad_secret
  generate_totp secret algorithm digits period unix =
      elim (lib.decode_base32 (pad_secret (lib.normal_secret secret))) [
        | err e ↦ some (err e)
        | ok key ↦
            hotp key (unix / to_uint64 (or_default 30 period)) algorithm (or_default 6 digits)
      ]

  cut-some :
      (n : ℕ) (sum : Bytes)
      → n ≤ 9
      → 20 ≤ length sum
      → (x : ℕ) × (cut (int64_zero + n) sum ≡ some (lib.print (int64_zero + n) x)) × (x < 10 ^ n)
  unfolding cut code
  cut-some n sum small h =
      let (x, e, low, high) = code-some n sum h in
      let exact = lib.pow10_small n small in
      elim (Option-cases (truncate sum)) [
        | inl f ↦ absurd (ground arith)
        | inr (w, f) ↦
            let same : w % 10 ^ n ≡ x = ground arith in
            let nonzero : eqb (10 ^ n) 0 ≡ false = ground (arith, pow_pos n) in
            (x, rw (cut, f, exact, nonzero, same) refl, high)
      ]

  cut-negative : (digits : Int64) (sum : Bytes) → digits < int64_zero → cut digits sum ≡ none
  unfolding cut
  cut-negative digits sum negative = elim (Option-cases (truncate sum)) [
    | inl e ↦ rw (cut, e) refl
    | inr (w, e) ↦ rw (cut, e, lib.pow10_negative digits negative) refl
  ]

  hotp_lem :
      (key algorithm text : Bytes) (counter : ℕ) (h : Hash) (digits : Int64)
      → hash_of algorithm ≡ ok h
      → cut digits (lib.hmac h key (put_uint64 counter)) ≡ some text
      → hotp key counter algorithm digits ≡ some (ok text)
  unfolding hotp
  hotp_lem key algorithm text counter h digits known e = rw (hotp, known, e) refl

  hotp_panics :
      (key algorithm : Bytes) (counter : ℕ) (h : Hash) (digits : Int64)
      → hash_of algorithm ≡ ok h
      → cut digits (lib.hmac h key (put_uint64 counter)) ≡ none
      → hotp key counter algorithm digits ≡ none
  unfolding hotp
  hotp_panics key algorithm counter h digits known e = rw (hotp, known, e) refl

  -- If the secret is base32 and the algorithm is known, then with 0 to 9 digits, where 0 stands for 6,
  -- GenerateTOTP does not panic, and prints a number below ten to the number of digits, to that width.
  pub generate_totp-some :
      (secret algorithm key : Bytes) (h : Hash) (n : ℕ) (period : Int64) (unix : ℕ)
      → n ≤ 9
      → lib.decode_base32 (pad_secret (lib.normal_secret secret)) ≡ ok key
      → hash_of algorithm ≡ ok h
      → let width = if eqb n 0 then 6 else n in
        (x : ℕ) × (generate_totp secret algorithm (int64_zero + n) period unix
          ≡ some (ok (lib.print (int64_zero + width) x)))
        × (x < 10 ^ width)
  unfolding generate_totp or_default
  generate_totp-some secret algorithm key h n period unix small decoded known =
      let width = if eqb n 0 then 6 else n in
      let counter = unix / to_uint64 (or_default 30 period) in
      let message = put_uint64 counter in
      let (x, e, below) =
        cut-some width (lib.hmac h key message) (ground arith) (lib.length-hmac h key message) in
      let asked : or_default 6 (int64_zero + n) ≡ int64_zero + width = ground arith in
      (x, rw (generate_totp, decoded, asked) (hotp_lem key algorithm _ counter h _ known e), below)

  hotp-returns :
      (key algorithm : Bytes) (counter n : ℕ)
      → n ≤ 9
      → (r : Result Bytes) × (hotp key counter algorithm (int64_zero + n) ≡ some r)
  unfolding hotp
  hotp-returns key algorithm counter n small = elim (Result-cases (hash_of algorithm)) [
    | inr (e, unknown) ↦ (err e, rw (hotp, unknown) refl)
    | inl (h, known) ↦
        let message = put_uint64 counter in
        let (x, e, _) = cut-some n (lib.hmac h key message) small (lib.length-hmac h key message) in
        (
          ok (lib.print (int64_zero + n) x),
          hotp_lem key algorithm _ counter h (int64_zero + n) known e,
        )
  ]

  -- With 0 to 9 digits GenerateTOTP gives a code or an error, whatever the secret and the algorithm are.
  pub generate_totp-returns :
      (secret algorithm : Bytes) (n : ℕ) (period : Int64) (unix : ℕ)
      → n ≤ 9
      → (r : Result Bytes) × (generate_totp secret algorithm (int64_zero + n) period unix ≡ some r)
  unfolding generate_totp or_default
  generate_totp-returns secret algorithm n period unix small =
      let width = if eqb n 0 then 6 else n in
      let asked : or_default 6 (int64_zero + n) ≡ int64_zero + width = ground arith in
      elim (Result-cases (lib.decode_base32 (pad_secret (lib.normal_secret secret)))) [
        | inr (e, refused) ↦ (err e, rw (generate_totp, refused) refl)
        | inl (key, decoded) ↦
            let (r, e) =
              hotp-returns key algorithm (unix / to_uint64 (or_default 30 period)) width
                (ground arith) in
            (r, rw (generate_totp, decoded, asked) e)
      ]

  -- A negative number of digits makes GenerateTOTP panic, by a division by zero, if the secret is
  -- base32 and the algorithm is known.
  pub generate_totp-panics :
      (secret algorithm key : Bytes) (h : Hash) (digits period : Int64) (unix : ℕ)
      → digits < int64_zero
      → lib.decode_base32 (pad_secret (lib.normal_secret secret)) ≡ ok key
      → hash_of algorithm ≡ ok h
      → generate_totp secret algorithm digits period unix ≡ none
  unfolding generate_totp or_default
  generate_totp-panics secret algorithm key h digits period unix negative decoded known =
      let kept : or_default 6 digits ≡ digits = ground arith in
      let counter = unix / to_uint64 (or_default 30 period) in
      rw (generate_totp, decoded, kept)
        (hotp_panics key algorithm counter h digits known
          (cut-negative digits (lib.hmac h key (put_uint64 counter)) negative))
