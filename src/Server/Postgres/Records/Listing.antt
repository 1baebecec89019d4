-- ===== src/Server/Postgres/Records/Listing.antt =====
-- What ListSince of the Postgres repository selects, and in which order.
use mathlib.Core.List.{mem-filter, Perm}
use mathlib.Core.List.Perm
use voldepass.Prelude.{
  String, ◌≡◌, List, [], ◌∷◌, ◌≤◌, ◌<◌, arith, inl, inr, Bool-cases, eq_iff, Mem, All, All-map, leb,
  true, filter, dec_true, some,
}
use voldepass.GoMap.{lookup, values}
use voldepass.GoMap.Laws.{values-mem}
use voldepass.Domain.{Int64, Record}
use voldepass.Server.Postgres.Records.{
  Table, insert_by_version, order_by_version, is_changed, selected,
}

-- The rows come in the order of their versions.
abbrev pub IsOrdered : List Record → Type 0
IsOrdered [] = Unit
IsOrdered (x ∷ xs) = All (λ (y : Record). x.version ≤ y.version) xs × IsOrdered xs

insert_by_version-Perm : (x : Record) (ys : List Record) → Perm (insert_by_version x ys) (x ∷ ys)
unfolding insert_by_version
insert_by_version-Perm x [] = Perm.refl _
insert_by_version-Perm x (y ∷ ys) = elim (Bool-cases (leb x.version y.version)) [
  | inl t ↦ rw t (Perm.refl _)
  | inr f ↦ rw f (Perm.trans (Perm.cons y (insert_by_version-Perm x ys)) (Perm.swap x y ys))
]

order_by_version-Perm : (xs : List Record) → Perm (order_by_version xs) xs
unfolding order_by_version
order_by_version-Perm [] = Perm.refl _
order_by_version-Perm (x ∷ xs) =
    Perm.trans (insert_by_version-Perm x (order_by_version xs))
      (Perm.cons x (order_by_version-Perm xs))

All-insert_by_version :
    (P : Record → Type 0) (x : Record) (ys : List Record)
    → P x
    → All P ys
    → All P (insert_by_version x ys)
unfolding insert_by_version
All-insert_by_version P x [] p h = (p, tt)
All-insert_by_version P x (y ∷ ys) p h = elim (Bool-cases (leb x.version y.version)) [
  | inl t ↦ rw t (p, h)
  | inr f ↦ rw f (h.0, All-insert_by_version P x ys p h.1)
]

insert_by_version-IsOrdered :
    (x : Record) (ys : List Record) → IsOrdered ys → IsOrdered (insert_by_version x ys)
unfolding insert_by_version
insert_by_version-IsOrdered x [] h = (tt, tt)
insert_by_version-IsOrdered x (y ∷ ys) h = elim (Bool-cases (leb x.version y.version)) [
  | inl t ↦ rw t (
    (
      ground arith,
      All-map (λ (z : Record). y.version ≤ z.version) (λ (z : Record). x.version ≤ z.version) ys
          (λ z q. ground arith) h.0,
    ),
    h,
  )
  | inr f ↦ rw f (
    All-insert_by_version (λ (z : Record). y.version ≤ z.version) x ys (ground arith) h.0,
    insert_by_version-IsOrdered x ys h.1,
  )
]

pub order_by_version-IsOrdered : (xs : List Record) → IsOrdered (order_by_version xs)
unfolding order_by_version
order_by_version-IsOrdered [] = tt
order_by_version-IsOrdered (x ∷ xs) =
    insert_by_version-IsOrdered x (order_by_version xs) (order_by_version-IsOrdered xs)

-- A row that is selected has the owner, and its version is above the cursor.
pub selected-owned :
    (owner_id : String) (since : Int64) (t : Table) (x : Record)
    → Mem x (selected owner_id since t)
    → (x.owner_id ≡ owner_id) × (since < x.version)
unfolding selected
selected-owned owner_id since t x m =
    let changed = is_changed owner_id since in
    let kept : changed x ≡ true =
      ((mem-filter {p = λ rec. changed rec ≡ true} (λ rec. dec_true (changed rec))).0 (
        (Perm.mem_iff
            (order_by_version-Perm (filter (λ rec. dec_true (changed rec)) (values t.rows)))).0
          m)).1 in
    ground (arith, eq_iff x.owner_id owner_id)

-- A row of the owner above the cursor is selected.
pub selected-complete :
    (owner_id k : String) (since : Int64) (t : Table) (x : Record)
    → lookup k t.rows ≡ some x
    → x.owner_id ≡ owner_id
    → since < x.version
    → Mem x (selected owner_id since t)
unfolding selected
selected-complete owner_id k since t x e o h =
    (Perm.mem_iff (
        order_by_version-Perm
          (filter (λ rec. dec_true (is_changed owner_id since rec)) (values t.rows)))).1
      ((mem-filter _).1 (values-mem k x t.rows e, ground (arith, eq_iff x.owner_id owner_id)))
