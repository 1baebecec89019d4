-- ===== src/Client/Syncer/Edits.antt =====
-- Merging what the server sent loses no local edit.
use voldepass.Prelude.{
  ℕ, String, ◌≡◌, refl, sym, ◌∙◌, ap, true, some, List, [], ◌∷◌, arith, eq_iff, inl, inr,
  Bool-cases, subst, All, Bool, ◌==◌,
}
use voldepass.GoMap.{lookup}
use voldepass.GoMap.Laws.{lookup-insert_self, lookup-insert_ne}
use voldepass.Domain.{Bytes, DataType, Time, RecordDto}
use voldepass.Client.Storage
use voldepass.Client.Storage.{StoredRecord}
use voldepass.Client.Syncer.Local.{
  Local, rebased, resolve_conflict, save_conflict_copy, save_conflict_copy_from_dto, merge,
  merge_all,
}
use voldepass.Client.Syncer.Merge.{
  copy_of, IsValid, IsInjective, IsForeign, resolve_conflict_cases, merge_cases, merge-IsValid,
  merge-other,
}

-- What a user's edit consists of.
pub record Content : Type 0 where
  pub data_type : DataType
  pub encrypted_meta : Bytes
  pub meta_nonce : Bytes
  pub ciphertext : Bytes
  pub nonce : Bytes
  pub is_deleted : Bool

abbrev pub content : RecordDto → Content
content d = record {
  data_type = d.data_type;
  encrypted_meta = d.encrypted_meta;
  meta_nonce = d.meta_nonce;
  ciphertext = d.ciphertext;
  nonce = d.nonce;
  is_deleted = d.is_deleted;
}

-- The store holds an edit that still has to be sent, under some id.
abbrev pub HoldsEdit : Content → Local → Type 0
HoldsEdit c l =
    (k : String) × (r : StoredRecord) × (lookup k l.store.records ≡ some r)
    × (r.dirty ≡ true)
    × (content r.dto ≡ c)

module _ (uuid : ℕ → String) (now : Time) (distinct : IsInjective uuid) where
  -- A dirty record that the server also changed keeps its content: in place, or in the copy.
  resolve_conflict-HoldsEdit :
      (r : StoredRecord) (incoming : RecordDto) (l : Local)
      → IsForeign uuid incoming
      → r.dirty ≡ true
      → HoldsEdit (content r.dto) (resolve_conflict uuid now r incoming l)
  unfolding save_conflict_copy save_conflict_copy_from_dto Storage.put_record
  resolve_conflict-HoldsEdit r incoming l foreign d =
      let copy = copy_of (uuid l.uuids) r in
      resolve_conflict_cases uuid now (HoldsEdit (content r.dto)) r incoming l
        (r.id, rebased r incoming, lookup-insert_self r.id _ _, d, refl)
        (
          uuid l.uuids,
          copy,
          lookup-insert_ne incoming.id (uuid l.uuids) _ _ (λ p. foreign l.uuids (sym p))
              ∙ lookup-insert_self (uuid l.uuids) copy l.store.records,
          d,
          refl,
        )
        (r.id, rebased r incoming, lookup-insert_self r.id _ _, d, refl)

  merge-HoldsEdit :
      (incoming : RecordDto) (c : Content) (l : Local)
      → IsForeign uuid incoming
      → IsValid uuid l
      → HoldsEdit c l
      → HoldsEdit c (merge uuid now incoming l)
  merge-HoldsEdit incoming c l foreign v (k, r, found, dirty, same) =
      elim (Bool-cases (k == incoming.id)) [
        | inl t ↦
            let q : k ≡ incoming.id = (eq_iff k incoming.id).0 t in
            let at_id : lookup incoming.id l.store.records ≡ some r = rw (← q) found in
            merge_cases uuid now (HoldsEdit c) incoming l
              (λ clean. absurd (ground (arith, clean r at_id)))
              (λ x e d.
                let u : x ≡ r = ground arith in
                subst (λ (m : Content). HoldsEdit m (resolve_conflict uuid now x incoming l))
                  (ap (λ (y : StoredRecord). content y.dto) u ∙ same)
                  (resolve_conflict-HoldsEdit x incoming l foreign d))
        | inr f ↦ (
          k,
          r,
          merge-other uuid now distinct k incoming l v (λ q. ground (arith, eq_iff k incoming.id))
                (λ q.
                  ground (arith, ap (λ (s : String). lookup s l.store.records) q, v.unused l.uuids))
              ∙ found,
          dirty,
          same,
        )
      ]

  -- A pull loses no local edit: in a valid state, with ids to be drawn that are distinct and none
  -- of which a record from the server has, after all the records that the server sent are merged,
  -- every edit that was waiting to be sent is still waiting, under its own id or under a new one.
  pub merge_all-HoldsEdit :
      (incoming : List RecordDto) (c : Content) (l : Local)
      → All (IsForeign uuid) incoming
      → IsValid uuid l
      → HoldsEdit c l
      → HoldsEdit c (merge_all uuid now incoming l)
  unfolding merge_all
  merge_all-HoldsEdit [] c l foreign v h = h
  merge_all-HoldsEdit (dto ∷ dtos) c l foreign v h =
      merge_all-HoldsEdit dtos c (merge uuid now dto l) foreign.1
        (merge-IsValid uuid now distinct dto l foreign.0 v) (merge-HoldsEdit dto c l foreign.0 v h)
