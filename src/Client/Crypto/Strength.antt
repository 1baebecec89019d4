-- ===== src/Client/Crypto/Strength.antt =====
-- internal/client/crypto/password.go, the estimate of a password's strength.
use voldepass.Prelude.{
  ℕ, ◌+◌, ◌≡◌, ◌≤◌, String, Bool, true, false, ◌||◌, ◌==◌, List, [], ◌∷◌, ◌++◌, ltb, leb, length,
  arith, if◌then◌else◌, if-cases,
}
use voldepass.Domain.{Bytes}

-- Packages unicode and strings, as the estimate calls them: the classes of a rune, `decode` for the
-- runes of a string, and strings.ToLower as text.
pub record Unicode : Type 0 where
  pub is_lower : ℕ → Bool
  pub is_upper : ℕ → Bool
  pub is_digit : ℕ → Bool
  pub is_punct : ℕ → Bool
  pub is_symbol : ℕ → Bool
  pub decode : Bytes → List ℕ
  pub to_lower : Bytes → String

-- StrengthResult
pub record StrengthResult : Type 0 where
  pub score : ℕ
  pub feedback : List String

-- commonPasswords
abbrev pub common_passwords : List String
common_passwords =
    "password" ∷ "password1" ∷ "123456" ∷ "12345678" ∷ "qwerty" ∷ "abc123" ∷ "monkey" ∷ "1234567"
    ∷ "letmein" ∷ "trustno1" ∷ "dragon" ∷ "master" ∷ "sunshine" ∷ "iloveyou" ∷ "princess"
    ∷ "welcome" ∷ "shadow" ∷ "superman" ∷ "michael" ∷ "football" ∷ "admin" ∷ "login" ∷ "passw0rd"
    ∷ "starwars" ∷ []

-- A key of the map.
unfoldable pub is_key : String → List String → Bool
is_key k [] = false
is_key k (x ∷ xs) = x == k || is_key k xs

-- isCommonPassword
unfoldable pub is_common_password : String → Bool
unfolding is_key
is_common_password pw = is_key pw common_passwords

-- The four flags of the loop over the runes.
pub record Classes : Type 0 where
  pub has_lower : Bool
  pub has_upper : Bool
  pub has_digit : Bool
  pub has_symbol : Bool

abbrev pub count_if : Bool → ℕ → ℕ
count_if b n = if b then n + 1 else n

abbrev pub advise_unless : Bool → String → List String → List String
advise_unless b advice feedback = if b then feedback else feedback ++ advice ∷ []

module _ (unicode : Unicode) where
  -- The switch on a rune.
  abbrev pub mark : ℕ → Classes → Classes
  mark r c =
      if unicode.is_lower r
      then record c { has_lower = true }
      else if unicode.is_upper r
      then record c { has_upper = true }
      else if unicode.is_digit r
      then record c { has_digit = true }
      else if unicode.is_punct r || unicode.is_symbol r
      then record c { has_symbol = true }
      else c

  unfoldable pub classes : List ℕ → Classes → Classes
  classes [] c = c
  classes (r ∷ rs) c = classes rs (mark r c)

  abbrev pub no_classes : Classes
  no_classes = record {
    has_lower = false;
    has_upper = false;
    has_digit = false;
    has_symbol = false;
  }

  -- The points for the length.
  unfoldable pub length_score : ℕ → ℕ
  length_score n =
      let score = if ltb n 8 then 0 else if leb 12 n then 1 else 0 in count_if (leb 16 n) score

  -- EvaluatePasswordStrength
  unfoldable pub evaluate_password_strength : Bytes → StrengthResult
  unfolding classes length_score is_common_password
  evaluate_password_strength pw =
      let too_short =
        if ltb (length pw) 8 then "Password is too short (minimum 8 characters)" ∷ [] else [] in
      let c = classes (unicode.decode pw) no_classes in
      let class_count =
        count_if c.has_symbol
          (count_if c.has_digit (count_if c.has_upper (count_if c.has_lower 0))) in
      let score = count_if (leb 3 class_count) (length_score (length pw)) in
      let feedback = advise_unless c.has_symbol "Add special characters" (
        advise_unless c.has_digit "Add numbers"
          (advise_unless c.has_upper "Add uppercase letters" too_short)) in
      if is_common_password (unicode.to_lower pw)
      then record { score = 0; feedback = feedback ++ "This is a commonly used password" ∷ [] }
      else record { score = if ltb 4 score then 4 else score; feedback = feedback }

  abbrev IsBounded : Bytes → ℕ → Type 0
  IsBounded pw score =
      (score ≤ 3)
      × (score ≡ 3 → (16 ≤ length pw) × (is_common_password (unicode.to_lower pw) ≡ false))

  length_score-le : (n : ℕ) → (length_score n ≤ 2) × (length_score n ≡ 2 → 16 ≤ n)
  unfolding length_score
  length_score-le n = ground arith

  -- One more point, with the cap at 4.
  capped-le :
      (b : Bool) (n : ℕ)
      → n ≤ 2
      → let score = count_if b n in
        let capped = if ltb 4 score then 4 else score in (capped ≤ 3) × (capped ≡ 3 → n ≡ 2)
  capped-le b n h = ground arith

  evaluate_password_strength-IsBounded :
      (pw : Bytes) → IsBounded pw (evaluate_password_strength pw).score
  unfolding evaluate_password_strength
  evaluate_password_strength-IsBounded pw =
      if-cases (λ (r : StrengthResult). IsBounded pw r.score)
        (is_common_password (unicode.to_lower pw)) _ _ (λ _. ground arith)
        (λ rare.
          let (small, long) = length_score-le (length pw) in
          let (le, most) = capped-le _ (length_score (length pw)) small in
          (le, λ three. (long (most three), rare)))

  -- No password gets the score 4 of the scale from 0 to 4: the score is at most 3.
  pub evaluate_password_strength-le : (pw : Bytes) → (evaluate_password_strength pw).score ≤ 3
  evaluate_password_strength-le pw = (evaluate_password_strength-IsBounded pw).0

  -- A password with the score 3 has at least 16 bytes and is not one of the common ones.
  pub evaluate_password_strength-strong :
      (pw : Bytes)
      → (evaluate_password_strength pw).score ≡ 3
      → (16 ≤ length pw) × (is_common_password (unicode.to_lower pw) ≡ false)
  evaluate_password_strength-strong pw h = (evaluate_password_strength-IsBounded pw).1 h
