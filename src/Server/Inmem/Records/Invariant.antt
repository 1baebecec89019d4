-- ===== src/Server/Inmem/Records/Invariant.antt =====
-- The invariant of the record store: one entry for each id, kept under that id, and no version above
-- the counter. It holds as long as the counter has room below the largest int64.
use voldepass.Prelude.{
  ℕ, String, ◌≡◌, refl, true, List, [], ◌∷◌, ◌+◌, ◌^◌, ◌≤◌, ◌<◌, arith, length, inl, inr, All-map,
  Option-cases,
}
use voldepass.GoMap.{lookup, insert, IsUnique, Entries}
use voldepass.GoMap.Laws.{insert-IsUnique, Entries-insert, Entries-lookup}
use voldepass.Domain.{Time, Int64, increment, Record}
use voldepass.Server.Inmem.Records.{
  Repository, new, upsert, delete, Call, upserts, deletes, step, run,
}

abbrev pub IsFiled : Int64 → String → Record → Type 0
IsFiled seq k x = (x.id ≡ k) × (x.version ≤ seq)

pub record IsValid (r : Repository) : Type 0 where
  pub unique : IsUnique r.records
  pub filed : Entries (IsFiled r.seq) r.records

-- The counter can still count `n` writes.
abbrev pub HasRoom : ℕ → Repository → Type 0
HasRoom n r = r.seq + n < 2 ^ 64

pub increment_lem : (x : Int64) → x + 1 < 2 ^ 64 → increment x ≡ x + 1
increment_lem x h = omega arith

insert-IsValid :
    (k : String) (x : Record) (r : Repository) (seq : Int64)
    → r.seq ≤ seq
    → x.id ≡ k
    → x.version ≤ seq
    → IsValid r
    → IsValid (record { records = insert k x r.records; seq = seq })
insert-IsValid k x r seq h e v w = record {
  unique = insert-IsUnique k x r.records w.unique;
  filed =
      Entries-insert (IsFiled seq) k x r.records (λ i p. (ground arith, v))
        (All-map (λ e. IsFiled r.seq e.0 e.1) (λ e. IsFiled seq e.0 e.1) r.records
          (λ a q. (q.0, omega arith)) w.filed);
}

pub new-IsValid : IsValid new
unfolding new
new-IsValid = record { unique = tt; filed = tt }

pub upsert-IsValid :
    (now : Time) (rec : Record) (base : Int64) (r : Repository)
    → HasRoom 1 r
    → IsValid r
    → IsValid (upsert now rec base r).1
unfolding upsert
upsert-IsValid now rec base r h w =
    let written =
      insert-IsValid rec.id (record rec { version = increment r.seq; updated_at = now }) r
        (increment r.seq) (omega arith) refl (omega arith) w in
    ground (arith, written)

pub delete-IsValid :
    (now : Time) (id owner_id : String) (r : Repository)
    → HasRoom 1 r
    → IsValid r
    → IsValid (delete now id owner_id r).1
unfolding delete
delete-IsValid now id owner_id r h w = elim (Option-cases (lookup id r.records)) [
  | inl e ↦ rw (e, delete) w
  | inr (x, e) ↦
      let written =
        insert-IsValid id (record x { deleted = true; version = increment r.seq; updated_at = now })
          r (increment r.seq) (omega arith)
          (Entries-lookup (IsFiled r.seq) id x r.records w.filed e).0 (omega arith) w in
      ground (arith, written)
]

pub seq-step-le :
    (r : Repository) (c : Call)
    → HasRoom 1 r
    → (r.seq ≤ (step r c).seq) × ((step r c).seq ≤ r.seq + 1)
unfolding step
seq-step-le r (upserts now rec base) h = ground arith
seq-step-le r (deletes now id owner_id) h = ground arith

pub step-IsValid : (r : Repository) (c : Call) → HasRoom 1 r → IsValid r → IsValid (step r c)
unfolding step
step-IsValid r (upserts now rec base) h w = upsert-IsValid now rec base r h w
step-IsValid r (deletes now id owner_id) h w = delete-IsValid now id owner_id r h w

-- After any history that the counter has room for, a store that was valid is valid.
pub run-IsValid :
    (r : Repository) (cs : List Call) → HasRoom (length cs) r → IsValid r → IsValid (run r cs)
unfolding run
run-IsValid r [] h w = w
run-IsValid r (c ∷ cs) h w =
    let b = seq-step-le r c (omega arith) in
    run-IsValid (step r c) cs (omega arith) (step-IsValid r c (omega arith) w)
