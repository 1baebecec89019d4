-- ===== src/Client/Crypto/Generator.antt =====
-- internal/client/crypto/password.go, the generator of passwords. Strings are bytes. Where Go would
-- panic on an index, a draw gives `none`.
pub mod Arrays
pub mod Shuffle
pub mod Classes
pub mod Filled
pub mod Strong
use Prim.Native.Char.{code}
use voldepass.Prelude.{
  ℕ, zero, suc, ◌+◌, ◌-◌, String, Bool, Option, none, some, List, [], ◌∷◌, ◌++◌, length, get_elem?,
  ltb, if◌then◌else◌,
}
use voldepass.Domain.{Bytes, Int64, int64_zero, Result, ok, err}
use voldepass.Client.Crypto.Random.{Random, Draw, and_then}

-- The bytes of an ASCII text.
unfoldable pub ascii : String → Bytes
ascii String.[] = []
ascii (String.◌∷◌ c s) = code c ∷ ascii s

-- charsetLower, charsetUpper, charsetDigits, charsetSymbols
unfoldable pub charset_lower : Bytes
unfolding ascii
charset_lower = ascii "abcdefghijklmnopqrstuvwxyz"

unfoldable pub charset_upper : Bytes
unfolding ascii
charset_upper = ascii "ABCDEFGHIJKLMNOPQRSTUVWXYZ"

unfoldable pub charset_digits : Bytes
unfolding ascii
charset_digits = ascii "0123456789"

unfoldable pub charset_symbols : Bytes
unfolding ascii
charset_symbols = ascii "!@#$%^&*()-_=+[]{}|;:,.<>?"

-- GenerateOptions
pub record GenerateOptions : Type 0 where
  pub length : Int64
  pub no_symbols : Bool
  pub no_digits : Bool
  pub no_upper : Bool

-- opts.Length, which is 8 at least.
unfoldable pub password_length : GenerateOptions → ℕ
password_length opts = if ltb opts.length (int64_zero + 8) then 8 else opts.length - int64_zero

-- required
unfoldable pub required : GenerateOptions → List Bytes
required opts =
    charset_lower
    ∷ ((if opts.no_upper then [] else charset_upper ∷ [])
        ++ ((if opts.no_digits then [] else charset_digits ∷ [])
            ++ (if opts.no_symbols then [] else charset_symbols ∷ [])))

-- alphabet
unfoldable pub alphabet : GenerateOptions → Bytes
alphabet opts =
    charset_lower
    ++ ((if opts.no_upper then [] else charset_upper)
        ++ ((if opts.no_digits then [] else charset_digits)
            ++ (if opts.no_symbols then [] else charset_symbols)))

-- s[i] = v, for i in range.
abbrev pub set {ℓ} : {A : Type ℓ} → List A → ℕ → A → List A
set [] i v = []
set (x ∷ xs) zero v = v ∷ xs
set (x ∷ xs) (suc i) v = x ∷ set xs i v

-- make([]byte, n)
unfoldable pub make : ℕ → Bytes
make zero = []
make (suc n) = 0 ∷ make n

-- The identity that the shuffle starts from: n indices, from k on.
unfoldable pub indices : ℕ → ℕ → List ℕ
indices k zero = []
indices k (suc n) = k ∷ indices (suc k) n

-- perm[i], perm[j] = perm[j], perm[i]
unfoldable pub swap : ℕ → ℕ → List ℕ → Option (List ℕ)
swap i j perm = elim (get_elem? perm i) [
  | none ↦ none
  | some a ↦ elim (get_elem? perm j) [ none ↦ none | some b ↦ some (set (set perm i b) j a) ]
]

-- result[positions[i]] = c
unfoldable pub place : List ℕ → ℕ → ℕ → Bytes → Option Bytes
place positions i c result = elim (get_elem? positions i) [
  | none ↦ none
  | some p ↦ if ltb p (length result) then some (set result p c) else none
]

module _ (random : Random) where
  -- A draw that goes on where there was no panic.
  abbrev pub without_panic {ℓ κ} :
      {A : Type ℓ} {B : Type κ} → (A → Draw random (Option B)) → Option A → Draw random (Option B)
  without_panic f none s = (ok none, s)
  without_panic f (some a) s = f a s

  -- randomChar
  unfoldable pub random_char : Bytes → Draw random (Option ℕ)
  random_char chars =
      and_then random (random.int (length chars)) (λ i s. (ok (get_elem? chars i), s))

  -- The loop of randomPermutation, from i on down.
  unfoldable pub shuffle : ℕ → List ℕ → Draw random (Option (List ℕ))
  unfolding swap
  shuffle zero perm s = (ok (some perm), s)
  shuffle (suc i) perm s =
      and_then random (random.int (suc i + 1))
        (λ j. without_panic (shuffle i) (swap (suc i) j perm)) s

  -- randomPermutation
  unfoldable pub random_permutation : ℕ → Draw random (Option (List ℕ))
  unfolding shuffle indices
  random_permutation n = shuffle (n - 1) (indices 0 n)

  -- The loop over the required classes.
  unfoldable pub fill_required : List Bytes → ℕ → ℕ → List ℕ → Bytes → Draw random (Option Bytes)
  unfolding random_char place
  fill_required [] i n positions result s = (ok (some result), s)
  fill_required (cls ∷ classes) i n positions result s =
      let rest = fill_required classes (suc i) n positions in
      if ltb i n
      then and_then random (random_char cls)
          (without_panic λ c. without_panic rest (place positions i c result)) s
      else (ok (some result), s)

  -- The loop over the other positions, of which `rounds` are left.
  unfoldable pub fill_rest : ℕ → Bytes → ℕ → List ℕ → Bytes → Draw random (Option Bytes)
  unfolding place
  fill_rest zero pool i positions result s = (ok (some result), s)
  fill_rest (suc rounds) pool i positions result s =
      and_then random (random.int (length pool))
        (λ idx.
          without_panic
            (λ c.
              without_panic (fill_rest rounds pool (suc i) positions) (place positions i c result))
            (get_elem? pool idx))
        s

  -- GeneratePassword
  unfoldable pub generate_password : GenerateOptions → Draw random (Option Bytes)
  unfolding random_permutation fill_required fill_rest make
  generate_password opts =
      let n = password_length opts in
      let classes = required opts in
      and_then random (random_permutation n) (
        without_panic λ positions. and_then random (fill_required classes 0 n positions (make n)) (
          without_panic λ result.
            fill_rest (n - length classes) (alphabet opts) (length classes) positions result))
