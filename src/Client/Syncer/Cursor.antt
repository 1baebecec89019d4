-- ===== src/Client/Syncer/Cursor.antt =====
-- The cursor of the last synchronisation.
use mathlib.Core.List.{mem-filter, mem-cons_self, mem-cons_of_mem}
use voldepass.Prelude.{
  ℕ, String, ◌≡◌, refl, sym, ◌∙◌, ◌≤◌, ◌⊎◌, inl, inr, true, List, [], ◌∷◌, arith, All, Mem, ltb,
  if◌then◌else◌, Bool-cases, dec_true, map, dec_true, ◌++◌, ◌&&◌, subst,
}
use voldepass.GoMap.{values}
use voldepass.Domain.{
  Time, Int64, RecordDto, Record, PushResult, SyncPushResponse, SyncPullResponse, ok,
}
use voldepass.Client.Storage
use voldepass.Client.Syncer.Local.{newest, newest_applied, is_applied, apply_push_results}
use voldepass.Server.Inmem.Records
use voldepass.Client.Syncer.Run.{Transport, World, pull}

newest-le :
    (v : Int64) (ds : List RecordDto) → (v ≤ newest v ds) × All (λ d. d.version ≤ newest v ds) ds
unfolding newest
newest-le v [] = (omega arith, tt)
newest-le v (d ∷ ds) =
    let v' = if ltb v d.version then d.version else v in
    let (h, rest) = newest-le v' ds in (ground arith, (ground arith, rest))

newest-mem :
    (v : Int64) (ds : List RecordDto)
    → (newest v ds ≡ v) ⊎ Mem (newest v ds) (map (λ d. d.version) ds)
unfolding newest
newest-mem v [] = inl refl
newest-mem v (d ∷ ds) = elim (newest-mem (if ltb v d.version then d.version else v) ds) [
  | inr m ↦ inr (mem-cons_of_mem d.version m)
  | inl e ↦ elim (Bool-cases (ltb v d.version)) [
    | inl t ↦ inr (
        subst (λ w. Mem w (d.version ∷ map (λ d. d.version) ds)) (sym (e ∙ rw t refl))
          mem-cons_self)
    | inr f ↦ inl (e ∙ rw f refl)
  ]
]

-- After a pull that succeeded, the cursor has not gone back, no version that the server sent is
-- above it, and it is the old cursor or one of those versions.
pub pull-cursor :
    (transport : Transport) (uuid : ℕ → String) (now : Time) (w : World transport uuid)
    (resp : SyncPullResponse)
    → (transport.pull w.1.store.last_sync_version w.0).0 ≡ ok resp
    → let old = w.1.store.last_sync_version in
      let cursor = (pull transport uuid now w).1.1.store.last_sync_version in
      (old ≤ cursor)
      × All (λ d. d.version ≤ cursor) resp.records
      × ((cursor ≡ old) ⊎ Mem cursor (map (λ d. d.version) resp.records))
unfolding pull Storage.set_last_sync_version
pull-cursor transport uuid now w resp h =
    let old = w.1.store.last_sync_version in
    let (up, bound) = newest-le old resp.records in
    rw (h, pull) (up, bound, newest-mem old resp.records)

newest_applied-le : (v : Int64) (ps : List PushResult) → v ≤ newest_applied v ps
unfolding newest_applied
newest_applied-le v [] = omega arith
newest_applied-le v (p ∷ ps) =
    let rest =
      newest_applied-le
        (if is_applied p && ltb v p.server_record.version then p.server_record.version else v) ps in
    ground arith

newest_applied-mem :
    (v : Int64) (p : PushResult) (before after : List PushResult)
    → is_applied p ≡ true
    → p.server_record.version ≤ newest_applied v (before ++ p ∷ after)
unfolding newest_applied
newest_applied-mem v p [] after h =
    let rest =
      newest_applied-le
        (if is_applied p && ltb v p.server_record.version then p.server_record.version else v)
        after in
    ground arith
newest_applied-mem v p (q ∷ before) after h =
    newest_applied-mem
      (if is_applied q && ltb v q.server_record.version then q.server_record.version else v) p
      before after h

-- A push moves the cursor over changes that were never pulled: once a push has been answered with an
-- applied record, no record of the server whose version is at most that record's is listed to this client
-- from its new cursor, whichever device wrote it and whether or not the client has seen it.
pub push-cursor_skips :
    (resp : SyncPushResponse) (s : Storage.State) (p : PushResult) (before after : List PushResult)
    (owner_id : String) (r : Records.Repository) (x : Record)
    → resp.results ≡ before ++ p ∷ after
    → is_applied p ≡ true
    → x.version ≤ p.server_record.version
    → ¬ Mem x (Records.list_since owner_id (apply_push_results resp s).0.last_sync_version r)
unfolding apply_push_results Storage.set_last_sync_version Records.list_since
push-cursor_skips resp s p before after owner_id r x e h le m =
    let v = newest_applied s.last_sync_version resp.results in
    let bound = newest_applied-mem s.last_sync_version p before after h in
    let changed =
      ((mem-filter {p = λ y. Records.is_changed owner_id v y ≡ true}
          (λ y. dec_true (Records.is_changed owner_id v y)) {l = values r.records}).0
        m).1 in
    ground (arith, e, bound, changed)
