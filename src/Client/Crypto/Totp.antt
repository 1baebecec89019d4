-- ===== src/Client/Crypto/Totp.antt =====
-- internal/client/crypto/totp.go: hotp, over HMAC as a parameter.
pub mod Code
use voldepass.Prelude.{
  ℕ, zero, suc, ◌+◌, ◌*◌, ◌%◌, ◌^◌, ◌≤◌, ◌<◌, ◌≡◌, refl, [], ◌∷◌, length, drop, arith, Option, none,
  some,
}
use native.Mathlib.Nat.{mod-le, mod-lt}
use voldepass.Domain.{Bytes}

-- The last byte of a sum, `sum[len(sum)-1]`; none where Go panics.
unfoldable pub last : Bytes → Option ℕ
last [] = none
last (b ∷ []) = some b
last (b ∷ c ∷ bs) = last (c ∷ bs)

-- binary.BigEndian.Uint32 on a slice of four bytes; none where the slice is not there.
unfoldable pub uint32 : Bytes → Option ℕ
uint32 (a ∷ b ∷ c ∷ d ∷ _) = some (((a * 256 + b) * 256 + c) * 256 + d)
uint32 _ = none

-- The dynamic truncation in hotp: the offset is the low half of the last byte, and the sign bit of
-- the word there is cleared.
unfoldable pub truncate : Bytes → Option ℕ
unfolding last uint32
truncate sum = elim (last sum) [
  | none ↦ none
  | some b ↦ elim (uint32 (drop (b % 16) sum)) [ none ↦ none | some w ↦ some (w % 2 ^ 31) ]
]

-- The code that hotp prints with leading zeros: the truncated sum modulo 10 ^ digits, which fits in
-- the uint32 of the source for at most 9 digits.
unfoldable pub code : ℕ → Bytes → Option ℕ
unfolding truncate
code digits sum = elim (truncate sum) [ none ↦ none | some w ↦ some (w % 10 ^ digits) ]

uint32-some : (b : Bytes) → 4 ≤ length b → (w : ℕ) × (uint32 b ≡ some w)
unfolding uint32
uint32-some [] h = absurd (omega arith)
uint32-some (a ∷ []) h = absurd (omega arith)
uint32-some (a ∷ b ∷ []) h = absurd (omega arith)
uint32-some (a ∷ b ∷ c ∷ []) h = absurd (omega arith)
uint32-some (a ∷ b ∷ c ∷ d ∷ rest) h = (_, refl)

last-some : (b : Bytes) → 1 ≤ length b → (x : ℕ) × (last b ≡ some x)
unfolding last
last-some [] h = absurd (omega arith)
last-some (b ∷ []) h = (b, refl)
last-some (b ∷ c ∷ bs) h = last-some (c ∷ bs) (omega arith)

pub pow_pos : (n : ℕ) → 0 < 10 ^ n
pow_pos zero = omega arith
pow_pos (suc n) = omega (arith, pow_pos n)

length-drop : (n : ℕ) (b : Bytes) → length b ≤ length (drop n b) + n
length-drop zero b = omega arith
length-drop (suc n) [] = omega arith
length-drop (suc n) (x ∷ bs) = omega (arith, length-drop n bs)

code-truncated :
    (digits b w : ℕ) (sum : Bytes)
    → last sum ≡ some b
    → uint32 (drop (b % 16) sum) ≡ some w
    → code digits sum ≡ some (w % 2 ^ 31 % 10 ^ digits)
unfolding code truncate
code-truncated digits b w sum e f = ground arith

-- hotp reads no byte outside of a sum of at least 20 bytes, the length of SHA-1's: there is a code
-- for it, whatever the offset is, and the code is below 2 ^ 31 as well as below 10 ^ digits.
pub code-some :
    (digits : ℕ) (sum : Bytes)
    → 20 ≤ length sum
    → (c : ℕ) × (code digits sum ≡ some c) × (c < 2 ^ 31) × (c < 10 ^ digits)
code-some digits sum h =
    let (b, e) = last-some sum (omega arith) in
    let (w, f) = uint32-some (drop (b % 16) sum) (omega (arith, length-drop (b % 16) sum)) in
    let below = mod-le (w % 2 ^ 31) (10 ^ digits) in
    (
      w % 2 ^ 31 % 10 ^ digits,
      code-truncated digits b w sum e f,
      omega arith,
      mod-lt (w % 2 ^ 31) (pow_pos digits),
    )
