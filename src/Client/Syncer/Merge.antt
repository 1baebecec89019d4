-- ===== src/Client/Syncer/Merge.antt =====
-- Merging what the server sent: the ways it can end, and what it keeps of a valid local state.
use voldepass.Prelude.{
  ℕ, suc, String, ◌≡◌, ◌≢◌, refl, sym, ◌∙◌, ◌≤◌, true, false, none, some, arith, eq_iff, inl, inr,
  Option-cases, if-cases, not, ◌&&◌,
}
use voldepass.GoMap.{lookup}
use voldepass.GoMap.Laws.{lookup-insert, lookup-insert_ne}
use voldepass.Domain.{Time, RecordDto, after, int64_zero}
use voldepass.Client.Storage
use voldepass.Client.Storage.{StoredRecord}
use voldepass.Client.Syncer.Local.{
  Local, put, clean, rebased, resolve_conflict, save_conflict_copy, save_conflict_copy_from_dto,
  merge,
}

-- Each record stands under its id, and the ids to be drawn are new: no record has one, and none is
-- drawn twice.
pub record IsValid (uuid : ℕ → String) (l : Local) : Type 0 where
  pub keyed : (k : String) (r : StoredRecord) → lookup k l.store.records ≡ some r → r.id ≡ k
  pub unused : (n : ℕ) → l.uuids ≤ n → lookup (uuid n) l.store.records ≡ none

abbrev pub IsInjective : (ℕ → String) → Type 0
IsInjective uuid = (m n : ℕ) → uuid m ≡ uuid n → m ≡ n

-- No id that is drawn is that of a record from the server.
abbrev pub IsForeign : (ℕ → String) → RecordDto → Type 0
IsForeign uuid dto = (n : ℕ) → uuid n ≢ dto.id

-- The copies that resolveConflict may save.
abbrev pub copy_of : String → StoredRecord → StoredRecord
copy_of id r = record r { dto = record r.dto { id = id; base_version = int64_zero } }

abbrev pub copy_of_dto : String → Time → RecordDto → StoredRecord
copy_of_dto id now dto = record {
  dto = record dto { id = id; base_version = int64_zero };
  dirty = true;
  dirty_at = now;
}

put-IsValid :
    (uuid : ℕ → String) (r : StoredRecord) (l : Local)
    → ((n : ℕ) → l.uuids ≤ n → uuid n ≢ r.id)
    → IsValid uuid l
    → IsValid uuid (put r l)
unfolding Storage.put_record
put-IsValid uuid r l other v = record {
  keyed =
      λ k x e. ground (arith, lookup-insert r.id k r l.store.records, eq_iff r.id k, v.keyed k x);
  unused = λ n h.
      lookup-insert_ne r.id (uuid n) r l.store.records (λ p. other n h (sym p)) ∙ v.unused n h;
}

-- A copy that takes the next id.
copied-IsValid :
    (uuid : ℕ → String) (r : StoredRecord) (l : Local)
    → IsInjective uuid
    → r.id ≡ uuid l.uuids
    → IsValid uuid l
    → IsValid uuid (record { store = Storage.put_record r l.store; uuids = suc l.uuids })
copied-IsValid uuid r l distinct e v =
    put-IsValid uuid r (record l { uuids = suc l.uuids })
      (λ n h p. absurd (omega (arith, distinct n l.uuids (p ∙ e))))
      (record { keyed = v.keyed; unused = λ n h. v.unused n (omega arith) })

module _ (uuid : ℕ → String) (now : Time) where
  -- The three ends of resolveConflict.
  pub resolve_conflict_cases {κ} :
      (P : Local → Type κ) (r : StoredRecord) (incoming : RecordDto) (l : Local)
      → P (put (rebased r incoming) (save_conflict_copy_from_dto uuid now incoming l))
      → P (put (clean incoming) (save_conflict_copy uuid r l))
      → P (put (rebased r incoming) l)
      → P (resolve_conflict uuid now r incoming l)
  unfolding resolve_conflict
  resolve_conflict_cases P r incoming l both theirs ours =
      if-cases P (r.is_deleted && not incoming.is_deleted) _ _ (λ _. both)
        (λ _.
          if-cases P (not r.is_deleted && incoming.is_deleted) _ _ (λ _. theirs)
            (λ _. if-cases P (after incoming.updated_at r.dirty_at) _ _ (λ _. theirs) (λ _. ours)))

  -- The ends of the body of pull's loop.
  pub merge_cases {κ} :
      (P : Local → Type κ) (incoming : RecordDto) (l : Local)
      → (((r : StoredRecord) → lookup incoming.id l.store.records ≡ some r → r.dirty ≡ false)
          → P (put (clean incoming) l))
      → ((r : StoredRecord)
          → lookup incoming.id l.store.records ≡ some r
          → r.dirty ≡ true
          → P (resolve_conflict uuid now r incoming l))
      → P (merge uuid now incoming l)
  unfolding merge Storage.get_record
  merge_cases P incoming l forward resolved =
      elim (Option-cases (lookup incoming.id l.store.records)) [
        | inl e ↦ rw (e, merge) (forward (λ r f. cc))
        | inr (r, e) ↦
            rw (e, merge)
              (if-cases P r.dirty _ _ (resolved r e) (λ d. forward (λ x f. ground arith)))
      ]

module _ (uuid : ℕ → String) (now : Time) (distinct : IsInjective uuid) where
  resolve_conflict-IsValid :
      (r : StoredRecord) (incoming : RecordDto) (l : Local)
      → IsForeign uuid incoming
      → r.id ≡ incoming.id
      → IsValid uuid l
      → IsValid uuid (resolve_conflict uuid now r incoming l)
  unfolding save_conflict_copy save_conflict_copy_from_dto
  resolve_conflict-IsValid r incoming l foreign e v =
      let saved = copied-IsValid uuid (copy_of (uuid l.uuids) r) l distinct refl v in
      let saved_dto =
        copied-IsValid uuid (copy_of_dto (uuid l.uuids) now incoming) l distinct refl v in
      resolve_conflict_cases uuid now (IsValid uuid) r incoming l
        (put-IsValid uuid (rebased r incoming) _ (λ n h p. foreign n (p ∙ e)) saved_dto)
        (put-IsValid uuid (clean incoming) _ (λ n h. foreign n) saved)
        (put-IsValid uuid (rebased r incoming) l (λ n h p. foreign n (p ∙ e)) v)

  pub merge-IsValid :
      (incoming : RecordDto) (l : Local)
      → IsForeign uuid incoming
      → IsValid uuid l
      → IsValid uuid (merge uuid now incoming l)
  merge-IsValid incoming l foreign v =
      merge_cases uuid now (IsValid uuid) incoming l
        (λ _. put-IsValid uuid (clean incoming) l (λ n h. foreign n) v)
        (λ r e d. resolve_conflict-IsValid r incoming l foreign (v.keyed incoming.id r e) v)

  -- Records other than the one that the server sent stay as they are.
  pub merge-other :
      (k : String) (incoming : RecordDto) (l : Local)
      → IsValid uuid l
      → k ≢ incoming.id
      → k ≢ uuid l.uuids
      → lookup k (merge uuid now incoming l).store.records ≡ lookup k l.store.records
  unfolding save_conflict_copy save_conflict_copy_from_dto Storage.put_record
  merge-other k incoming l v ne new =
      let Same = λ (m : Local). lookup k m.store.records ≡ lookup k l.store.records in
      let other = λ (x : StoredRecord) (m : Local) (e : x.id ≡ incoming.id).
        lookup-insert_ne x.id k x m.store.records (λ p. ne (sym p ∙ e)) in
      let copied = λ (x : StoredRecord).
        lookup-insert_ne (uuid l.uuids) k x l.store.records (λ p. new (sym p)) in
      merge_cases uuid now Same incoming l (λ _. other (clean incoming) l refl)
        (λ r e d.
          let own = v.keyed incoming.id r e in
          resolve_conflict_cases uuid now Same r incoming l
            (other (rebased r incoming) (save_conflict_copy_from_dto uuid now incoming l) own
              ∙ copied (copy_of_dto (uuid l.uuids) now incoming))
            (other (clean incoming) (save_conflict_copy uuid r l) refl
              ∙ copied (copy_of (uuid l.uuids) r))
            (other (rebased r incoming) l own))
