-- ===== src/Client/Crypto/Generator/Classes.antt =====
-- The classes of characters, and the alphabet that they make up.
use voldepass.Prelude.{
  ℕ, zero, suc, ◌≤◌, ◌<◌, ◌≡◌, refl, subst, Bool, true, false, some, List, [], ◌∷◌, ◌++◌, length,
  get_elem?, arith, All, All-map, length-append, if◌then◌else◌,
}
use voldepass.Domain.{Bytes}
use voldepass.Client.Crypto.Generator.{
  GenerateOptions, charset_lower, charset_upper, charset_digits, charset_symbols, required,
  alphabet,
}

-- A character stands in a string.
abbrev pub Has : ℕ → Bytes → Type 0
Has c s = (j : ℕ) × (get_elem? s j ≡ some c)

-- A class that is not empty, all of whose characters are in a pool.
abbrev pub IsPart : Bytes → Bytes → Type 0
IsPart pool cls = (0 < length cls) × ((c : ℕ) → Has c cls → Has c pool)

Has-append_left : (c : ℕ) (a b : Bytes) → Has c a → Has c (a ++ b)
Has-append_left c [] b (j, h) = absurd (ground arith)
Has-append_left c (x ∷ a) b (zero, h) = (0, h)
Has-append_left c (x ∷ a) b (suc j, h) = let (k, e) = Has-append_left c a b (j, h) in (suc k, e)

Has-append_right : (c : ℕ) (a b : Bytes) → Has c b → Has c (a ++ b)
Has-append_right c [] b h = h
Has-append_right c (x ∷ a) b h = let (k, e) = Has-append_right c a b h in (suc k, e)

All-append {ℓ κ} :
    {A : Type ℓ} (P : A → Type κ) (xs ys : List A) → All P xs → All P ys → All P (xs ++ ys)
All-append P [] ys h k = k
All-append P (x ∷ xs) ys h k = (h.0, All-append P xs ys h.1 k)

pub All-get {ℓ κ} :
    {A : Type ℓ} (P : A → Type κ) (xs : List A) (k : ℕ) (x : A)
    → All P xs
    → get_elem? xs k ≡ some x
    → P x
All-get P [] k x h e = absurd (ground arith)
All-get P (y ∷ xs) zero x h e = let same : y ≡ x = ground arith in subst P same h.0
All-get P (y ∷ xs) (suc k) x h e = All-get P xs k x h.1 e

pub All-of_get {ℓ κ} :
    {A : Type ℓ} (P : A → Type κ) (xs : List A)
    → ((k : ℕ) (x : A) → get_elem? xs k ≡ some x → P x)
    → All P xs
All-of_get P [] h = tt
All-of_get P (x ∷ xs) h = (h 0 x refl, All-of_get P xs (λ k. h (suc k)))

-- Two alphabets, and the classes of each.
parts_append :
    (a b : Bytes) (xs ys : List Bytes)
    → All (IsPart a) xs
    → All (IsPart b) ys
    → All (IsPart (a ++ b)) (xs ++ ys)
parts_append a b xs ys h k =
    All-append (IsPart (a ++ b)) xs ys
      (All-map (IsPart a) (IsPart (a ++ b)) xs
        (λ cls p. (p.0, λ c m. Has-append_left c a b (p.1 c m))) h)
      (All-map (IsPart b) (IsPart (a ++ b)) ys
        (λ cls p. (p.0, λ c m. Has-append_right c a b (p.1 c m))) k)

-- A class that may be left out.
parts_optional :
    (left_out : Bool) (cls : Bytes)
    → 0 < length cls
    → All (IsPart (if left_out then [] else cls)) (if left_out then [] else cls ∷ [])
parts_optional true cls h = tt
parts_optional false cls h = ((h, λ c m. m), tt)

length-optional-le :
    (left_out : Bool) (cls : Bytes) → length {A = Bytes} (if left_out then [] else cls ∷ []) ≤ 1
length-optional-le true cls = omega arith
length-optional-le false cls = omega arith

lower_pos : 0 < length charset_lower
unfolding charset_lower
lower_pos = omega arith

upper_pos : 0 < length charset_upper
unfolding charset_upper
upper_pos = omega arith

digits_pos : 0 < length charset_digits
unfolding charset_digits
digits_pos = omega arith

symbols_pos : 0 < length charset_symbols
unfolding charset_symbols
symbols_pos = omega arith

pub required-IsPart : (opts : GenerateOptions) → All (IsPart (alphabet opts)) (required opts)
unfolding required alphabet
required-IsPart opts =
    parts_append charset_lower _ (charset_lower ∷ []) _ ((lower_pos, λ c m. m), tt)
      (parts_append _ _ _ _ (parts_optional opts.no_upper charset_upper upper_pos) (
        parts_append _ _ _ _ (parts_optional opts.no_digits charset_digits digits_pos)
          (parts_optional opts.no_symbols charset_symbols symbols_pos)))

pub length-required-le : (opts : GenerateOptions) → length (required opts) ≤ 4
unfolding required
length-required-le opts =
    let u = if opts.no_upper then [] else charset_upper ∷ [] in
    let d = if opts.no_digits then [] else charset_digits ∷ [] in
    let s = if opts.no_symbols then [] else charset_symbols ∷ [] in
    omega (
      arith,
      length-append u (d ++ s),
      length-append d s,
      length-optional-le opts.no_upper charset_upper,
      length-optional-le opts.no_digits charset_digits,
      length-optional-le opts.no_symbols charset_symbols,
    )

pub alphabet_pos : (opts : GenerateOptions) → 0 < length (alphabet opts)
unfolding alphabet
alphabet_pos opts = omega (arith, length-append charset_lower _, lower_pos)
