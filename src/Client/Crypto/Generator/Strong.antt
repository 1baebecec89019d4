-- ===== src/Client/Crypto/Generator/Strong.antt =====
-- What a generated password has: its length, its characters, and one of each class.
use voldepass.Prelude.{
  ℕ, zero, suc, ◌-◌, ◌≤◌, ◌≡◌, refl, subst, ap, Option, none, some, List, length, get_elem?, arith,
  inl, inr, All, Option-cases,
}
use voldepass.Domain.{Bytes, ok, Result-cases}
use voldepass.Client.Crypto.Random.{Random}
use voldepass.Client.Crypto.Generator.{
  GenerateOptions, password_length, required, alphabet, make, indices, random_permutation,
  fill_required, fill_rest, generate_password,
}
use voldepass.Client.Crypto.Generator.Arrays.{get_elem?-lt}
use voldepass.Client.Crypto.Generator.Shuffle.{IsShuffled, random_permutation-IsShuffled}
use voldepass.Client.Crypto.Generator.Classes.{
  Has, IsPart, required-IsPart, length-required-le, All-get, All-of_get, alphabet_pos,
}
use voldepass.Client.Crypto.Generator.Filled.{
  IsFilled, position_onto, fill_rest-IsFilled, fill_required-IsFilled,
}

-- The class of the i-th draw.
abbrev class_at : GenerateOptions → ℕ → Bytes
class_at opts i = elim (get_elem? (required opts) i) [ none ↦ alphabet opts | some cls ↦ cls ]

class_at-some :
    (opts : GenerateOptions) (i : ℕ) (cls : Bytes)
    → get_elem? (required opts) i ≡ some cls
    → class_at opts i ≡ cls
class_at-some opts i cls e = rw (class_at, e) refl

class_at-IsPart :
    (opts : GenerateOptions) (i c : ℕ) → Has c (class_at opts i) → Has c (alphabet opts)
class_at-IsPart opts i c h = elim (Option-cases (get_elem? (required opts) i)) [
  | inl e ↦ rw (class_at, e) at h
  | inr (cls, e) ↦
      (All-get (IsPart (alphabet opts)) (required opts) i cls (required-IsPart opts) e).1 c
        (rw (class_at-some opts i cls e) at h)
]

class_at-rest :
    (opts : GenerateOptions) (i : ℕ) → length (required opts) ≤ i → class_at opts i ≡ alphabet opts
class_at-rest opts i h = elim (Option-cases (get_elem? (required opts) i)) [
  | inl e ↦ rw (class_at, e) refl
  | inr (cls, e) ↦ absurd (omega (arith, get_elem?-lt (required opts) i cls e))
]

length-make : (n : ℕ) → length (make n) ≡ n
unfolding make
length-make zero = refl
length-make (suc n) = ap suc (length-make n)

password_length-le : (opts : GenerateOptions) → 8 ≤ password_length opts
unfolding password_length
password_length-le opts = ground arith

-- What is asked of a password: its length, which is 8 at least, a character of each class that is
-- not left out, and no character outside of the alphabet.
abbrev pub IsStrong : GenerateOptions → Bytes → Type 0
IsStrong opts password =
    (length password ≡ password_length opts)
    × (8 ≤ length password)
    × All (λ cls. (c : ℕ) × Has c password × Has c cls) (required opts)
    × ((c : ℕ) → Has c password → Has c (alphabet opts))

IsFilled-IsStrong :
    (opts : GenerateOptions) (positions : List ℕ) (password : Bytes)
    → (shuffled : IsShuffled (indices 0 (password_length opts)) positions)
    → IsFilled
        (password_length opts)
        positions
        shuffled
        (class_at opts)
        (password_length opts)
        password
    → IsStrong opts password
IsFilled-IsStrong opts positions password shuffled (len, filled) = (
  len,
  omega (arith, password_length-le opts),
  All-of_get _ (required opts) (λ k cls e.
      let (p, c, at_, got, m) = filled k (
        omega (
          arith,
          get_elem?-lt (required opts) k cls e,
          length-required-le opts,
          password_length-le opts,
        )) in
      (c, (p, got), subst (Has c) (class_at-some opts k cls e) m)),
  λ c (j, e).
      let (i, at_i, small) =
        position_onto (password_length opts) positions shuffled j
          (omega (arith, get_elem?-lt password j c e, len)) in
      let (p, d, at_, got, m) = filled i small in
      let same : j ≡ p = ground arith in
      let same' : d ≡ c = let e' = rw same at e in ground arith in
      class_at-IsPart opts i c (subst (λ x. Has x (class_at opts i)) same' m),
)

-- GeneratePassword does not panic, and the password that it gives is strong: it is as long as asked,
-- but 8 characters at least, has a character of each class that is not left out, and no other
-- characters than theirs.
pub generate_password-IsStrong :
    (random : Random) (opts : GenerateOptions) (s : random.State) (o : Option Bytes)
    → (generate_password random opts s).0 ≡ ok o
    → (password : Bytes) × (o ≡ some password) × IsStrong opts password
unfolding generate_password
generate_password-IsStrong random opts s o e =
    let n = password_length opts in
    let classes = required opts in
    let short : length classes ≤ n =
      omega (arith, length-required-le opts, password_length-le opts) in
    elim (Result-cases (random_permutation random n s).0) [
      | inr (x, f) ↦ absurd (ground arith)
      | inl (o1, f) ↦
          let (positions, g, shuffled) =
            random_permutation-IsShuffled random n s o1 (omega (arith, password_length-le opts))
              f in
          let s1 = (random_permutation random n s).1 in
          let first = fill_required random classes 0 n positions (make n) s1 in
          let blank : IsFilled n positions shuffled (class_at opts) 0 (make n) =
            (length-make n, λ i lt. absurd (omega arith)) in
          elim (Result-cases first.0) [
            | inr (x, f2) ↦ absurd (ground arith)
            | inl (o2, f2) ↦
                let (result, g2, filled) =
                  fill_required-IsFilled n positions shuffled (class_at opts) random classes 0
                    (make n) s1 o2
                    (λ k cls eq. (
                      subst (λ m. class_at opts m ≡ cls) (omega arith)
                          (class_at-some opts k cls eq),
                      (All-get (IsPart (alphabet opts)) classes k cls (required-IsPart opts) eq).0,
                    ))
                    (omega arith) blank f2 in
                let rest = n - length classes in
                let last : (fill_rest random rest (alphabet opts) (length classes) positions result
                      first.1).0
                    ≡ ok o =
                  ground arith in
                let (password, g3, done) =
                  fill_rest-IsFilled n positions shuffled (class_at opts) random rest
                    (alphabet opts) (length classes) result first.1 o (alphabet_pos opts)
                    (class_at-rest opts) (omega arith)
                    (subst (λ k. IsFilled n positions shuffled (class_at opts) k result)
                      (omega arith) filled)
                    last in
                (
                  password,
                  g3,
                  IsFilled-IsStrong opts positions password shuffled (
                      subst (λ k. IsFilled n positions shuffled (class_at opts) k password)
                        (omega arith) done),
                )
          ]
    ]
