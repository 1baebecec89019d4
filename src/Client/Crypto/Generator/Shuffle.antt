-- ===== src/Client/Crypto/Generator/Shuffle.antt =====
-- randomPermutation gives the indices, each once, and does not panic.
use voldepass.Prelude.{
  ℕ, zero, suc, ◌+◌, ◌-◌, ◌<◌, ◌≡◌, refl, ◌∙◌, Option, some, List, length, arith, inl, inr,
}
use voldepass.Domain.{ok, Result-cases}
use voldepass.Client.Crypto.Random.{Random}
use voldepass.Client.Crypto.Generator.{set, indices, swap, shuffle, random_permutation}
use voldepass.Client.Crypto.Generator.Arrays.{
  count, length-set, get_elem?-some, get_elem?-set_same, count-set, length-indices,
}

-- Two lists of the same numbers, each as often.
abbrev pub IsShuffled : List ℕ → List ℕ → Type 0
IsShuffled xs ys = (length ys ≡ length xs) × ((x : ℕ) → count x ys ≡ count x xs)

swap-IsShuffled :
    (i j : ℕ) (perm : List ℕ)
    → i < length perm
    → j < length perm
    → (q : List ℕ) × (swap i j perm ≡ some q) × IsShuffled perm q
unfolding swap
swap-IsShuffled i j perm hi hj =
    let (a, ha) = get_elem?-some perm i hi in
    let (b, hb) = get_elem?-some perm j hj in
    let q = set perm i b in
    (
      set q j a,
      rw (swap, ha, hb) refl,
      (
        length-set q j a ∙ length-set perm i b,
        λ x. omega (
          arith,
          count-set x perm i a b ha,
          count-set x q j b a (get_elem?-set_same perm i j b hb),
        ),
      ),
    )

module _ (random : Random) where
  shuffle-IsShuffled :
      (i : ℕ) (perm : List ℕ) (s : random.State) (r : Option (List ℕ))
      → i < length perm
      → (shuffle random i perm s).0 ≡ ok r
      → (q : List ℕ) × (r ≡ some q) × IsShuffled perm q
  unfolding shuffle
  shuffle-IsShuffled zero perm s r h e = (perm, ground arith, (refl, λ x. refl))
  shuffle-IsShuffled (suc i) perm s r h e = elim (Result-cases (random.int (suc i + 1) s).0) [
    | inr (x, f) ↦ absurd (ground arith)
    | inl (j, f) ↦
        let small = random.int-lt (suc i + 1) j s (omega arith) f in
        let (q, swapped, (len, same)) = swap-IsShuffled (suc i) j perm h (omega arith) in
        let next : (shuffle random i q (random.int (suc i + 1) s).1).0 ≡ ok r = ground arith in
        let (p, e', (len', same')) =
          shuffle-IsShuffled i q (random.int (suc i + 1) s).1 r (omega arith) next in
        (p, e', (len' ∙ len, λ x. same' x ∙ same x))
  ]

  pub random_permutation-IsShuffled :
      (n : ℕ) (s : random.State) (r : Option (List ℕ))
      → 0 < n
      → (random_permutation random n s).0 ≡ ok r
      → (q : List ℕ) × (r ≡ some q) × IsShuffled (indices 0 n) q
  unfolding random_permutation
  random_permutation-IsShuffled n s r h e =
      shuffle-IsShuffled (n - 1) (indices 0 n) s r (omega (arith, length-indices 0 n)) e
