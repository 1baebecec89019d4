-- ===== src/Server/Postgres/Records/Overlap.antt =====
-- Two Upserts that overlap: a version is drawn before the row that bears it can be seen.
use voldepass.Prelude.{
  String, ◌≡◌, ◌≢◌, refl, none, some, ◌<◌, ◌+◌, arith, inl, inr, Option-cases, eq_iff, eq_refl, Mem,
  ◌∙◌, Bool, false,
}
use voldepass.GoMap.{lookup, insert}
use voldepass.GoMap.Laws.{lookup-insert, lookup-insert_self}
use voldepass.Domain.{Time, Int64, Record, ok}
use voldepass.Server.Ports.{saved}
use voldepass.Server.Postgres.Records.{
  Table, nextval, proposed, updated, settle, do_update, overwrite, upsert, get, selected,
}
use voldepass.Server.Postgres.Records.Listing.{selected-owned}

-- An Upsert of another id does not touch the row of an id, nor make one.
upsert-other :
    (fails get_fails : Bool) (now : Time) (rec : Record) (base : Int64) (t : Table) (k : String)
    → rec.id ≢ k
    → lookup k (upsert fails get_fails now rec base t).1.rows ≡ lookup k t.rows
unfolding upsert settle do_update overwrite nextval
upsert-other fails get_fails now rec base t k ne = elim (Option-cases (lookup rec.id t.rows)) [
  | inl e ↦
      let kept = lookup-insert rec.id k (proposed now rec (t.seq + 1)) t.rows in
      ground (arith, kept, eq_iff rec.id k)
  | inr (row, e) ↦
      let kept = lookup-insert rec.id k (updated now rec (t.seq + 1 + 1) row) t.rows in
      ground (arith, kept, eq_iff rec.id k)
]

-- What an Upsert saves has a version above the sequence.
upsert-newer :
    (fails get_fails : Bool) (now : Time) (rec y : Record) (base : Int64) (t : Table)
    → (upsert fails get_fails now rec base t).0 ≡ saved y
    → t.seq < y.version
unfolding upsert settle do_update overwrite nextval get
upsert-newer fails get_fails now rec y base t s = ground arith

-- An id that is not there: settle inserts what was proposed, and Get finds it.
settle-new :
    (fails : Bool) (now : Time) (rec : Record) (base version : Int64) (t : Table)
    → lookup rec.id t.rows ≡ none
    → (t' : Table) × (settle fails now rec base version t ≡ (saved (proposed now rec version), t'))
      × (get false rec.id rec.owner_id t' ≡ ok (proposed now rec version))
unfolding settle get
settle-new fails now rec base version t e = (
  record t { rows = insert rec.id (proposed now rec version) t.rows },
  rw (e, settle) refl,
  rw (lookup-insert_self, eq_refl) refl,
)

-- A change is lost to a client that pulls between two Upserts that overlap. The first, of a new id,
-- draws its version; the second, of another id, is done as a whole and saves `y`; then the first
-- saves `x`. From a cursor at the version of `y`, ListSince does not list `x`, although Get finds it.
pub selected-skips :
    (now later : Time) (first second y : Record) (base base' version : Int64) (t t' : Table)
    → lookup first.id t.rows ≡ none
    → second.id ≢ first.id
    → nextval t ≡ (some version, t')
    → (upsert false false later second base' t').0 ≡ saved y
    → (x : Record) × (t'' : Table) × (settle false now first base version
          (upsert false false later second base' t').1
        ≡ (saved x, t''))
      × (get false first.id first.owner_id t'' ≡ ok x)
      × (¬ Mem x (selected first.owner_id y.version t''))
unfolding nextval
selected-skips now later first second y base base' version t t' absent ne drawn s =
    let alone : lookup first.id t'.rows ≡ lookup first.id t.rows = ground arith in
    let t2 = (upsert false false later second base' t').1 in
    let absent' : lookup first.id t2.rows ≡ none =
      upsert-other false false later second base' t' first.id ne ∙ alone ∙ absent in
    let newer : version < y.version =
      let above = upsert-newer false false later second y base' t' s in ground arith in
    let (t'', settled, found) = settle-new false now first base version t2 absent' in
    (
      proposed now first version,
      t'',
      settled,
      found,
      λ m.
          let above =
            (selected-owned first.owner_id y.version t'' (proposed now first version) m).1 in
          omega arith,
    )
