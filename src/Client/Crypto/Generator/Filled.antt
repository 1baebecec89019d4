-- ===== src/Client/Crypto/Generator/Filled.antt =====
-- The loops that fill the password: where each draw went stands a character of its class.
use voldepass.Prelude.{
  ℕ, zero, suc, ◌+◌, ◌≤◌, ◌<◌, ◌≡◌, refl, subst, ◌∙◌, Option, some, List, [], ◌∷◌, length,
  get_elem?, arith, inl, inr, lt→ltb,
}
use native.Mathlib.Decide.{ℕ_discrete}
use voldepass.Domain.{Bytes, ok, Result-cases}
use voldepass.Client.Crypto.Random.{Random}
use voldepass.Client.Crypto.Generator.{set, indices, place, random_char, fill_required, fill_rest}
use voldepass.Client.Crypto.Generator.Arrays.{
  length-set, get_elem?-some, get_elem?-lt, get_elem?-set_self, get_elem?-set_ne, count_pos,
  get_elem?-unique, get_elem?-of_count, length-indices, count-indices,
}
use voldepass.Client.Crypto.Generator.Shuffle.{IsShuffled}
use voldepass.Client.Crypto.Generator.Classes.{Has}

module _ (n : ℕ) (positions : List ℕ) (shuffled : IsShuffled (indices 0 n) positions) where
  length-positions : length positions ≡ n
  length-positions = shuffled.0 ∙ length-indices 0 n

  position_at : (i : ℕ) → i < n → (p : ℕ) × (get_elem? positions i ≡ some p) × (p < n)
  position_at i h =
      let (p, e) = get_elem?-some positions i (omega (arith, length-positions)) in
      (p, e, ground (arith, count_pos p positions i e, shuffled.1 p, count-indices p 0 n))

  position_unique :
      (p i j : ℕ) → get_elem? positions i ≡ some p → get_elem? positions j ≡ some p → i ≡ j
  position_unique p i j =
      get_elem?-unique p positions i j (ground (arith, shuffled.1 p, count-indices p 0 n))

  pub position_onto : (p : ℕ) → p < n → (i : ℕ) × (get_elem? positions i ≡ some p) × (i < n)
  position_onto p h =
      let (i, e) =
        get_elem?-of_count p positions (ground (arith, shuffled.1 p, count-indices p 0 n)) in
      (i, e, omega (arith, get_elem?-lt positions i p e, length-positions))

  module _ (class_at : ℕ → Bytes) where
    -- Where the i-th draw went stands a character of its class.
    abbrev pub IsFilled : ℕ → Bytes → Type 0
    IsFilled k result =
        (length result ≡ n)
        × ((i : ℕ)
            → i < k
            → (p : ℕ) × (c : ℕ) × (get_elem? positions i ≡ some p)
              × (get_elem? result p ≡ some c)
              × Has c (class_at i))

    place-IsFilled :
        (k c : ℕ) (result : Bytes)
        → k < n
        → IsFilled k result
        → Has c (class_at k)
        → (r : Bytes) × (place positions k c result ≡ some r) × IsFilled (suc k) r
    unfolding place
    place-IsFilled k c result h (len, at_) has =
        let (p, e, small) = position_at k h in
        let inside : p < length result = omega arith in
        (
          set result p c,
          rw (place, e, lt→ltb p (length result) inside) refl,
          (
            length-set result p c ∙ len,
            λ i lt. elim (ℕ_discrete i k) [
              | yes same ↦ (p, c, rw same e, get_elem?-set_self result p c inside, rw same has)
              | no other ↦
                  let (q, d, f, g, m) = at_ i (omega (arith, other)) in
                  (
                    q,
                    d,
                    f,
                    get_elem?-set_ne result p q c
                          (λ pq. other (position_unique q i k f (rw pq at e)))
                        ∙ g,
                    m,
                  )
            ],
          ),
        )

    module _ (random : Random) where
      pub fill_rest-IsFilled :
          (rounds : ℕ) (pool : Bytes) (i : ℕ) (result : Bytes) (s : random.State) (o : Option Bytes)
          → 0 < length pool
          → ((k : ℕ) → i ≤ k → class_at k ≡ pool)
          → i + rounds ≤ n
          → IsFilled i result
          → (fill_rest random rounds pool i positions result s).0 ≡ ok o
          → (r : Bytes) × (o ≡ some r) × IsFilled (i + rounds) r
      unfolding fill_rest
      fill_rest-IsFilled zero pool i result s o some_char classes h v e =
          (result, ground arith, subst (λ k. IsFilled k result) (omega arith) v)
      fill_rest-IsFilled (suc rounds) pool i result s o some_char classes h v e =
          elim (Result-cases (random.int (length pool) s).0) [
            | inr (x, f) ↦ absurd (ground arith)
            | inl (idx, f) ↦
                let s' = (random.int (length pool) s).1 in
                let (c, g) =
                  get_elem?-some pool idx (random.int-lt (length pool) idx s some_char f) in
                let (r, placed, v') =
                  place-IsFilled i c result (omega arith) v
                    (rw (classes i (omega arith)) (idx, g)) in
                let next : (fill_rest random rounds pool (suc i) positions r s').0 ≡ ok o =
                  ground arith in
                let (q, done, v'') =
                  fill_rest-IsFilled rounds pool (suc i) r s' o some_char
                    (λ k lt. classes k (omega arith)) (omega arith) v' next in
                (q, done, subst (λ k. IsFilled k q) (omega arith) v'')
          ]

      pub fill_required-IsFilled :
          (classes : List Bytes) (i : ℕ) (result : Bytes) (s : random.State) (o : Option Bytes)
          → ((k : ℕ) (cls : Bytes)
              → get_elem? classes k ≡ some cls
              → (class_at (i + k) ≡ cls) × (0 < length cls))
          → i + length classes ≤ n
          → IsFilled i result
          → (fill_required random classes i n positions result s).0 ≡ ok o
          → (r : Bytes) × (o ≡ some r) × IsFilled (i + length classes) r
      unfolding fill_required random_char
      fill_required-IsFilled [] i result s o follows h v e =
          (result, ground arith, subst (λ k. IsFilled k result) (omega arith) v)
      fill_required-IsFilled (cls ∷ classes) i result s o follows h v e =
          elim (Result-cases (random.int (length cls) s).0) [
            | inr (x, f) ↦ absurd (ground (arith, lt→ltb i n))
            | inl (idx, f) ↦
                let s' = (random.int (length cls) s).1 in
                let (first, some_char) = follows 0 cls refl in
                let here : class_at i ≡ cls = subst (λ k. class_at k ≡ cls) (omega arith) first in
                let (c, g) =
                  get_elem?-some cls idx (random.int-lt (length cls) idx s some_char f) in
                let (r, placed, v') =
                  place-IsFilled i c result (omega arith) v (rw here (idx, g)) in
                let next : (fill_required random classes (suc i) n positions r s').0 ≡ ok o =
                  ground (arith, lt→ltb i n) in
                let (q, done, v'') =
                  fill_required-IsFilled classes (suc i) r s' o
                    (λ k d eq.
                      subst (λ m. (class_at m ≡ d) × (0 < length d)) (omega arith)
                        (follows (suc k) d eq))
                    (omega arith) v' next in
                (q, done, subst (λ k. IsFilled k q) (omega arith) v'')
          ]
