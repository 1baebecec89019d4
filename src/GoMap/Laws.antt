-- ===== src/GoMap/Laws.antt =====
-- The laws by which the components use their maps.
use mathlib.Core.Option
use mathlib.Core.List.{mem-cons_self, mem-cons_of_mem}
use voldepass.Prelude.{
  String, ◌≡◌, ◌≢◌, refl, ap, none, some, [], ◌∷◌, ◌==◌, eq_iff, eq_refl, arith, if◌then◌else◌,
  true, inl, inr, Bool-cases, Mem, All,
}
use voldepass.GoMap.{GoMap, lookup, insert, delete, values, update_all, IsUnique, Entries}

module _ {ℓ} {V : Type ℓ} where
  pub lookup-insert :
      (key other : String) (v : V) (entries : GoMap V)
      → lookup other (insert key v entries)
        ≡ (if key == other then some v else lookup other entries)
  unfolding lookup insert
  lookup-insert key other v [] = refl
  lookup-insert key other v ((first, w) ∷ rest) =
      let below = lookup-insert key other v rest in
      ground (arith, below, eq_iff first other, eq_iff key other, eq_iff first key)

  pub lookup-insert_self :
      (key : String) (v : V) (entries : GoMap V) → lookup key (insert key v entries) ≡ some v
  lookup-insert_self key v entries = rw (lookup-insert, eq_refl) refl

  pub lookup-insert_ne :
      (k j : String) (v : V) (m : GoMap V) → k ≢ j → lookup j (insert k v m) ≡ lookup j m
  lookup-insert_ne k j v m h = simp lookup-insert (ground (arith, eq_iff k j))

  pub lookup-delete :
      (k j : String) (m : GoMap V) → lookup j (delete k m) ≡ (if k == j then none else lookup j m)
  unfolding lookup delete
  lookup-delete k j [] = ground arith
  lookup-delete k j ((i, w) ∷ m) =
      ground (arith, eq_iff k j, eq_iff i k, eq_iff i j, lookup-delete k j m)

  pub lookup-update_all :
      (f : V → V) (k : String) (m : GoMap V) → lookup k (update_all f m) ≡ Option.map f (lookup k m)
  unfolding lookup update_all
  lookup-update_all f k [] = refl
  lookup-update_all f k ((i, w) ∷ m) = ground (arith, lookup-update_all f k m)

  pub insert-IsUnique : (k : String) (v : V) (m : GoMap V) → IsUnique m → IsUnique (insert k v m)
  unfolding lookup insert
  insert-IsUnique k v [] h = (refl, tt)
  insert-IsUnique k v ((i, w) ∷ m) h =
      ground (arith, eq_iff i k, eq_iff k i, lookup-insert k i v m, insert-IsUnique k v m h.1)

  pub delete-IsUnique : (k : String) (m : GoMap V) → IsUnique m → IsUnique (delete k m)
  unfolding lookup delete
  delete-IsUnique k [] h = tt
  delete-IsUnique k ((i, w) ∷ m) h =
      ground (arith, eq_iff i k, lookup-delete k i m, delete-IsUnique k m h.1)

  pub Entries-insert {κ} :
      (P : String → V → Type κ) (k : String) (v : V) (m : GoMap V)
      → ((i : String) → i ≡ k → P i v)
      → Entries P m
      → Entries P (insert k v m)
  unfolding insert
  Entries-insert P k v [] p h = (p k refl, tt)
  Entries-insert P k v ((i, w) ∷ m) p h = elim (Bool-cases (i == k)) [
    | inl e ↦ rw e (p i ((eq_iff i k).0 e), h.1)
    | inr e ↦ rw e (h.0, Entries-insert P k v m p h.1)
  ]

  pub Entries-lookup {κ} :
      (P : String → V → Type κ) (k : String) (v : V) (m : GoMap V)
      → Entries P m
      → lookup k m ≡ some v
      → P k v
  unfolding lookup
  Entries-lookup P k v [] h e = cc
  Entries-lookup P k v ((i, w) ∷ m) h e = elim (Bool-cases (i == k)) [
    | inl t ↦ found t
    | inr f ↦ Entries-lookup P k v m h.1 (ground arith)
  ]
    where
      found : (i == k) ≡ true → P k v
      found t =
          let q : i ≡ k = (eq_iff i k).0 t in let r : w ≡ v = ground arith in rw (← q, ← r) h.0

  -- The value of a key is among those that `range` gives.
  pub values-mem : (k : String) (v : V) (m : GoMap V) → lookup k m ≡ some v → Mem v (values m)
  unfolding lookup values
  values-mem k v [] e = cc
  values-mem k v ((i, w) ∷ m) e = elim (Bool-cases (i == k)) [
    | inl t ↦ let q : v ≡ w = ground arith in rw q mem-cons_self
    | inr f ↦ mem-cons_of_mem w (values-mem k v m (ground arith))
  ]

  pub All-values {κ μ} :
      (P : String → V → Type κ) (Q : V → Type μ) (m : GoMap V)
      → ((k : String) (v : V) → P k v → Q v)
      → Entries P m
      → All Q (values m)
  unfolding values
  All-values P Q [] f h = tt
  All-values P Q ((k, v) ∷ m) f h = (f k v h.0, All-values P Q m f h.1)

  -- In a map with unique keys, each entry that `range` gives is the one found under its key.
  pub Entries-unique {κ} :
      (P : String → V → Type κ) (m : GoMap V)
      → IsUnique m
      → ((k : String) (v : V) → lookup k m ≡ some v → P k v)
      → Entries P m
  unfolding lookup
  Entries-unique P [] u h = tt
  Entries-unique P ((i, w) ∷ m) u h = (
    h i w (rw eq_refl),
    Entries-unique P m u.1
        (λ k v e. h k v (ground (arith, eq_iff i k, u.0, ap (λ (s : String). lookup s m)))),
  )
