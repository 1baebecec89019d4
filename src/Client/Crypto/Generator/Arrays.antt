-- ===== src/Client/Crypto/Generator/Arrays.antt =====
-- Reads and writes of a slice, and how often a number stands in one.
use voldepass.Prelude.{
  ℕ, zero, suc, ◌+◌, ◌≤◌, ◌<◌, ◌≡◌, ◌≢◌, refl, ap, some, List, [], ◌∷◌, length, get_elem?, eqb,
  eqb_iff, leb, ltb, Bool-cases, ◌&&◌, inl, inr, if◌then◌else◌, arith,
}
use voldepass.Client.Crypto.Generator.{set, indices}

module _ {ℓ} {A : Type ℓ} where
  pub length-set : (xs : List A) (i : ℕ) (v : A) → length (set xs i v) ≡ length xs
  length-set [] i v = refl
  length-set (x ∷ xs) zero v = refl
  length-set (x ∷ xs) (suc i) v = ap suc (length-set xs i v)

  pub get_elem?-set_self :
      (xs : List A) (i : ℕ) (v : A) → i < length xs → get_elem? (set xs i v) i ≡ some v
  get_elem?-set_self [] i v h = absurd (omega arith)
  get_elem?-set_self (x ∷ xs) zero v h = refl
  get_elem?-set_self (x ∷ xs) (suc i) v h = get_elem?-set_self xs i v (omega arith)

  pub get_elem?-set_ne :
      (xs : List A) (i j : ℕ) (v : A) → i ≢ j → get_elem? (set xs i v) j ≡ get_elem? xs j
  get_elem?-set_ne [] i j v h = refl
  get_elem?-set_ne (x ∷ xs) zero zero v h = absurd (h refl)
  get_elem?-set_ne (x ∷ xs) zero (suc j) v h = refl
  get_elem?-set_ne (x ∷ xs) (suc i) zero v h = refl
  get_elem?-set_ne (x ∷ xs) (suc i) (suc j) v h = get_elem?-set_ne xs i j v (λ e. h (ap suc e))

  -- A write of what is already there, at whatever index, keeps it there.
  pub get_elem?-set_same :
      (xs : List A) (i j : ℕ) (v : A) → get_elem? xs j ≡ some v → get_elem? (set xs i v) j ≡ some v
  get_elem?-set_same [] i j v h = h
  get_elem?-set_same (x ∷ xs) zero zero v h = refl
  get_elem?-set_same (x ∷ xs) zero (suc j) v h = h
  get_elem?-set_same (x ∷ xs) (suc i) zero v h = h
  get_elem?-set_same (x ∷ xs) (suc i) (suc j) v h = get_elem?-set_same xs i j v h

  pub get_elem?-some : (xs : List A) (i : ℕ) → i < length xs → (x : A) × (get_elem? xs i ≡ some x)
  get_elem?-some [] i h = absurd (omega arith)
  get_elem?-some (x ∷ xs) zero h = (x, refl)
  get_elem?-some (x ∷ xs) (suc i) h = get_elem?-some xs i (omega arith)

  pub get_elem?-lt : (xs : List A) (i : ℕ) (x : A) → get_elem? xs i ≡ some x → i < length xs
  get_elem?-lt [] i x h = absurd (ground arith)
  get_elem?-lt (y ∷ xs) zero x h = omega arith
  get_elem?-lt (y ∷ xs) (suc i) x h = omega (arith, get_elem?-lt xs i x h)

-- 1 for the number that is counted, and 0 for another.
abbrev pub unit : ℕ → ℕ → ℕ
unit x a = if eqb a x then 1 else 0

abbrev pub count : ℕ → List ℕ → ℕ
count x [] = 0
count x (a ∷ xs) = unit x a + count x xs

pub count-set :
    (x : ℕ) (xs : List ℕ) (i a v : ℕ)
    → get_elem? xs i ≡ some a
    → count x (set xs i v) + unit x a ≡ count x xs + unit x v
count-set x [] i a v h = absurd (ground arith)
count-set x (y ∷ xs) zero a v h = let e : y ≡ a = ground arith in rw e (omega arith)
count-set x (y ∷ xs) (suc i) a v h = omega (arith, count-set x xs i a v h)

pub count_pos : (x : ℕ) (xs : List ℕ) (i : ℕ) → get_elem? xs i ≡ some x → 0 < count x xs
count_pos x [] i h = absurd (ground arith)
count_pos x (y ∷ xs) zero h = ground arith
count_pos x (y ∷ xs) (suc i) h = omega (arith, count_pos x xs i h)

-- A number that is counted once stands at one index.
pub get_elem?-unique :
    (x : ℕ) (xs : List ℕ) (i j : ℕ)
    → count x xs ≤ 1
    → get_elem? xs i ≡ some x
    → get_elem? xs j ≡ some x
    → i ≡ j
get_elem?-unique x [] i j c h k = absurd (ground arith)
get_elem?-unique x (y ∷ xs) zero zero c h k = refl
get_elem?-unique x (y ∷ xs) zero (suc j) c h k = absurd (ground (arith, count_pos x xs j k))
get_elem?-unique x (y ∷ xs) (suc i) zero c h k = absurd (ground (arith, count_pos x xs i h))
get_elem?-unique x (y ∷ xs) (suc i) (suc j) c h k =
    ap suc (get_elem?-unique x xs i j (omega arith) h k)

-- A number that is counted stands somewhere.
pub get_elem?-of_count :
    (x : ℕ) (xs : List ℕ) → 0 < count x xs → (i : ℕ) × (get_elem? xs i ≡ some x)
get_elem?-of_count x [] h = absurd (omega arith)
get_elem?-of_count x (y ∷ xs) h = elim (Bool-cases (eqb y x)) [
  | inl e ↦ (0, ap some ((eqb_iff y x).0 e))
  | inr e ↦ let (i, f) = get_elem?-of_count x xs (ground arith) in (suc i, f)
]

pub length-indices : (k n : ℕ) → length (indices k n) ≡ n
unfolding indices
length-indices k zero = refl
length-indices k (suc n) = ap suc (length-indices (suc k) n)

-- Each number from k on, and below k + n, is counted once, and no other.
pub count-indices :
    (x k n : ℕ) → count x (indices k n) ≡ (if leb k x && ltb x (k + n) then 1 else 0)
unfolding indices
count-indices x k zero = ground arith
count-indices x k (suc n) = ground (arith, count-indices x (suc k) n)
