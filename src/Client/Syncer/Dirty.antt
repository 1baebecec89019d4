-- ===== src/Client/Syncer/Dirty.antt =====
-- The records that are still to be sent, by id.
use mathlib.Core.List.{flatten}
use voldepass.Prelude.{
  String, Bool, ◌≡◌, refl, sym, ◌∙◌, ap, true, false, ◌||◌, some, List, [], ◌∷◌, ◌++◌, arith,
  eq_iff, eq_refl, ◌==◌, inl, inr, filter, dec_true, map, Bool-cases, Option-cases,
}
use voldepass.GoMap.{GoMap, lookup, values, insert, IsUnique, Entries}
use voldepass.GoMap.Laws.{insert-IsUnique, Entries-insert}
use voldepass.Domain.{RecordDto, PushResult}
use voldepass.Client.Storage
use voldepass.Client.Storage.{StoredRecord}
use voldepass.Client.Syncer.Local.{had_conflicts, store_results, clean}
use voldepass.Client.Syncer.Push.{applied_record}

-- One entry for each id, and each record under its id.
pub record IsFiled (m : GoMap StoredRecord) : Type 0 where
  pub unique : IsUnique m
  pub filed : Entries (λ k (r : StoredRecord). r.id ≡ k) m

pub put_record-IsFiled :
    (r : StoredRecord) (s : Storage.State)
    → IsFiled s.records
    → IsFiled (Storage.put_record r s).records
unfolding Storage.put_record
put_record-IsFiled r s h = record {
  unique = insert-IsUnique r.id r s.records h.unique;
  filed = Entries-insert (λ k (x : StoredRecord). x.id ≡ k) r.id r s.records (λ i e. sym e) h.filed;
}

pub store_results-IsFiled :
    (ps : List PushResult) (s : Storage.State)
    → IsFiled s.records
    → IsFiled (store_results ps s).records
unfolding store_results
store_results-IsFiled [] s h = h
store_results-IsFiled (p ∷ ps) s h = ground (
  arith,
  store_results-IsFiled ps s h,
  store_results-IsFiled ps (Storage.put_record (clean p.server_record) s)
      (put_record-IsFiled (clean p.server_record) s h),
)

-- The loop over the results reads and writes only the records.
pub store_results-records :
    (ps : List PushResult) (s t : Storage.State)
    → s.records ≡ t.records
    → (store_results ps s).records ≡ (store_results ps t).records
unfolding store_results Storage.put_record
store_results-records [] s t e = e
store_results-records (p ∷ ps) s t e = ground (
  arith,
  store_results-records ps s t e,
  store_results-records ps (Storage.put_record (clean p.server_record) s)
      (Storage.put_record (clean p.server_record) t)
      (ap (insert p.server_record.id (clean p.server_record)) e),
)

-- Some record of the list has this id.
unfoldable pub is_listed : String → List StoredRecord → Bool
is_listed k [] = false
is_listed k (r ∷ rs) = r.id == k || is_listed k rs

unfoldable pub is_requested : String → List RecordDto → Bool
is_requested k [] = false
is_requested k (dto ∷ dtos) = dto.id == k || is_requested k dtos

unfoldable pub is_reported : String → List PushResult → Bool
is_reported k [] = false
is_reported k (p ∷ ps) = p.server_record.id == k || is_reported k ps

-- Some chunk has a record with this id.
unfoldable pub is_chunked : String → List (List StoredRecord) → Bool
unfolding is_listed
is_chunked k [] = false
is_chunked k (c ∷ cs) = is_listed k c || is_chunked k cs

pub is_requested-map :
    (k : String) (rs : List StoredRecord)
    → is_requested k (map (λ (r : StoredRecord). r.dto) rs) ≡ is_listed k rs
unfolding is_requested is_listed
is_requested-map k [] = refl
is_requested-map k (r ∷ rs) = ap (λ b. r.id == k || b) (is_requested-map k rs)

is_listed-append :
    (k : String) (rs qs : List StoredRecord)
    → is_listed k (rs ++ qs) ≡ (is_listed k rs || is_listed k qs)
unfolding is_listed
is_listed-append k [] qs = refl
is_listed-append k (r ∷ rs) qs = ground (arith, is_listed-append k rs qs)

pub is_listed-flatten :
    (k : String) (cs : List (List StoredRecord)) → is_listed k (flatten cs) ≡ is_chunked k cs
unfolding is_chunked is_listed flatten
is_listed-flatten k [] = refl
is_listed-flatten k (c ∷ cs) =
    is_listed-append k c (flatten cs) ∙ ap (λ b. is_listed k c || b) (is_listed-flatten k cs)

-- A record that is still to be sent is among those that ListDirty gives.
pub is_listed-list_dirty :
    (k : String) (x : StoredRecord) (m : GoMap StoredRecord)
    → Entries (λ k (r : StoredRecord). r.id ≡ k) m
    → lookup k m ≡ some x
    → x.dirty ≡ true
    → is_listed k (filter (λ (r : StoredRecord). dec_true r.dirty) (values m)) ≡ true
unfolding is_listed lookup values
is_listed-list_dirty k x [] h e d = ground arith
is_listed-list_dirty k x ((i, r) ∷ m) h e d =
    ground (arith, is_listed-list_dirty k x m h.1, eq_iff i k, eq_iff r.id k, h.0)

-- If ListDirty gives a record, one under some id is still to be sent.
pub list_dirty-found :
    (m : GoMap StoredRecord) (y : StoredRecord) (ys : List StoredRecord)
    → IsUnique m
    → filter (λ (r : StoredRecord). dec_true r.dirty) (values m) ≡ y ∷ ys
    → (k : String) × (x : StoredRecord) × (lookup k m ≡ some x) × (x.dirty ≡ true)
unfolding lookup values
list_dirty-found [] y ys u e = absurd (ground arith)
list_dirty-found ((i, r) ∷ m) y ys u e = elim (Bool-cases r.dirty) [
  | inl t ↦ (i, r, rw eq_refl refl, t)
  | inr f ↦
      let (k, x, found, d) = list_dirty-found m y ys u.1 (ground arith) in
      (k, x, ground (arith, eq_iff i k, u.0, ap (λ (j : String). lookup j m)), d)
]

-- If every result is an applied one, each id that is reported has an applied record.
pub applied_record-reported :
    (k : String) (ps : List PushResult)
    → had_conflicts ps ≡ false
    → is_reported k ps ≡ true
    → (dto : RecordDto) × (applied_record k ps ≡ some dto)
unfolding had_conflicts is_reported applied_record
applied_record-reported k [] h r = absurd (ground arith)
applied_record-reported k (p ∷ ps) h r = elim (Option-cases (applied_record k ps)) [
  | inr (dto, e) ↦ (dto, ground arith)
  | inl e ↦ elim (Bool-cases (is_reported k ps)) [
    | inl t ↦ let (dto, f) = applied_record-reported k ps (ground arith) t in absurd (ground arith)
    | inr f ↦ (p.server_record, ground arith)
  ]
]
