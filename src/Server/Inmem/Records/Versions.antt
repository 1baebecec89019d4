-- ===== src/Server/Inmem/Records/Versions.antt =====
-- What versions promise: a cursor sees every later change, and a stale write is refused.
use mathlib.Core.List.{mem-filter}
use voldepass.Prelude.{
  String, ◌≡◌, refl, Option, some, List, [], ◌∷◌, ◌≤◌, ◌<◌, arith, length, ◌⊎◌, inl, inr,
  Option-cases, eq_iff, Mem, true, ap, sym, subst, ◌∙◌, All, All-filter,
}
use voldepass.GoMap.{GoMap, lookup, insert, values}
use voldepass.GoMap.Laws.{
  lookup-insert, lookup-insert_self, values-mem, Entries-lookup, Entries-unique, All-values,
}
use voldepass.Domain.{Time, Int64, increment, Record}
use voldepass.Server.Ports.{saved, stale}
use voldepass.Server.Inmem.Records.{
  Repository, upsert, list_since, is_changed, Call, upserts, deletes, step, run,
}
use voldepass.Server.Inmem.Records.Invariant.{IsValid, IsFiled, HasRoom, seq-step-le}

-- What a history did to the entry of `k`: nothing, or a write that took a version above `seq`.
abbrev pub Kept : Int64 → Option Record → Option Record → Type 0
Kept seq old current = (current ≡ old) ⊎ ((x : Record) × (current ≡ some x) × (seq < x.version))

insert-Kept :
    (id k : String) (x : Record) (seq : Int64) (m : GoMap Record)
    → seq < x.version
    → Kept seq (lookup k m) (lookup k (insert id x m))
insert-Kept id k x seq m h = ground (arith, lookup-insert id k x m)

step-Kept :
    (r : Repository) (c : Call) (k : String)
    → HasRoom 1 r
    → Kept r.seq (lookup k r.records) (lookup k (step r c).records)
unfolding step
step-Kept r (upserts now rec base) k h =
    let rec' : Record = record rec { version = increment r.seq; updated_at = now } in
    let wrote = insert-Kept rec.id k rec' r.seq r.records (omega arith) in ground (arith, wrote)
step-Kept r (deletes now id owner_id) k h = elim (Option-cases (lookup id r.records)) [
  | inl e ↦ ground arith
  | inr (x, e) ↦
      let x' : Record = record x { deleted = true; version = increment r.seq; updated_at = now } in
      let wrote = insert-Kept id k x' r.seq r.records (omega arith) in ground (arith, wrote)
]

-- Over a history, an entry is what it was or has a version above the counter at the start.
run-Kept :
    (r : Repository) (cs : List Call) (k : String)
    → HasRoom (length cs) r
    → Kept r.seq (lookup k r.records) (lookup k (run r cs).records)
unfolding run
run-Kept r [] k h = inl refl
run-Kept r (c ∷ cs) k h =
    let b = seq-step-le r c (omega arith) in
    ground (arith, step-Kept r c k, run-Kept (step r c) cs k)

list_since-complete :
    (owner_id k : String) (since : Int64) (r : Repository) (x : Record)
    → lookup k r.records ≡ some x
    → x.owner_id ≡ owner_id
    → since < x.version
    → Mem x (list_since owner_id since r)
unfolding list_since
list_since-complete owner_id k since r x e o h =
    (mem-filter _).1 (values-mem k x r.records e, ground (arith, eq_iff x.owner_id owner_id))

-- A client whose cursor is the counter at some point misses nothing: after any history that the
-- counter has room for, a record is either the one that was there, or is listed by ListSince for
-- its owner from that cursor.
pub list_since-run :
    (r : Repository) (cs : List Call) (k : String) (x : Record)
    → HasRoom (length cs) r
    → lookup k (run r cs).records ≡ some x
    → (lookup k r.records ≡ some x) ⊎ Mem x (list_since x.owner_id r.seq (run r cs))
list_since-run r cs k x h e = elim (run-Kept r cs k h) [
  | inl same ↦ inl (sym same ∙ e)
  | inr (y, found, newer) ↦
      inr (list_since-complete x.owner_id k r.seq (run r cs) x e refl (ground arith))
]

-- In a valid store, ListSince gives only records that the store holds under their id, of that
-- owner, and above the cursor.
pub list_since-All :
    (owner_id : String) (since : Int64) (r : Repository)
    → IsValid r
    → All
        (λ x. (lookup x.id r.records ≡ some x) × (x.owner_id ≡ owner_id) × (since < x.version))
        (list_since owner_id since r)
unfolding list_since
list_since-All owner_id since r w =
    All-filter (λ x. lookup x.id r.records ≡ some x) _ (is_changed owner_id since)
      (values r.records) (λ x found p. ground (arith, found, eq_iff x.owner_id owner_id))
      (All-values (λ k x. lookup x.id r.records ≡ some x) _ r.records (λ k x found. found)
        (Entries-unique (λ k x. lookup x.id r.records ≡ some x) r.records w.unique
          (λ k x e.
            subst (λ i. lookup i r.records ≡ some x)
              (sym (Entries-lookup (IsFiled r.seq) k x r.records w.filed e).0) e)))

-- No lost update: of two Upserts of one id from the same base version, one that is not above the
-- counter, in a valid store whose counter has room, the second is refused with what the first
-- stored, and changes nothing.
pub upsert_twice :
    (now later : Time) (first second x : Record) (base : Int64) (r : Repository)
    → IsValid r
    → HasRoom 1 r
    → second.id ≡ first.id
    → base ≤ r.seq
    → (upsert now first base r).0 ≡ saved x
    → upsert later second base (upsert now first base r).1 ≡ (stale x, (upsert now first base r).1)
unfolding upsert
upsert_twice now later first second x base r w h e b s =
    let wrote =
      lookup-insert_self first.id (record first { version = increment r.seq; updated_at = now })
        r.records in
    ground (arith, wrote, ap (λ (k : String). lookup k (upsert now first base r).1.records) e)
