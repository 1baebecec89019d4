-- ===== src/Client/Tui/Safe/Messages.antt =====
-- The messages on the list and on a record.
use voldepass.Prelude.{
  ◌+◌, ◌≡◌, refl, none, some, length, arith, inl, inr, false, if-cases, Option-cases, length-map,
  ltb, not, ◌==◌, ◌||◌,
}
use voldepass.Domain.{Time, Result-cases}
use voldepass.Client.Tui.Input.{TextInput, Conversions, Key}
use voldepass.Client.Tui.Model.{
  Vault, Screen, listing, detail, key_string, Model, Updated, refresh_records, clamped, label,
}
use voldepass.Client.Tui.Safe.Ready.{
  Laws, get_elem?-Returns, empty-cases, HasCursors, IsReady, GoesOn, CanShow, shown, bind-GoesOn,
  with_store, clamped-cases,
}
use voldepass.Client.Tui.Safe.Opening.{open_detail-IsReady, start_edit-IsReady}
use voldepass.Client.Tui.Update.{
  leave, update_delete_confirm, enter_list, ask_delete, start_sync, update_list, update_detail,
}

module _ (input : TextInput) (vault : Vault) (conversions : Conversions) where
  abbrev State : Type 0
  State = Model input vault conversions

  abbrev Safe : Updated input vault conversions → Type 0
  Safe = GoesOn input vault conversions

  abbrev Ready : State → Type 0
  Ready = IsReady input vault conversions

  abbrev on : Screen → State → State
  on = shown input vault conversions

  leave-GoesOn : (m : State) → Safe (leave input vault conversions m)
  unfolding leave
  leave-GoesOn m = elim (Option-cases m.opened) [
    | inl e ↦ rw (leave, e) (inl refl)
    | inr (v, e) ↦ rw (leave, e) (inl refl)
  ]

  -- The list after a change of the store, with the cursor brought back.
  pub refreshed-IsReady :
      (v : vault.State) (m : State)
      → HasCursors input vault conversions m
      → m.logging_in ≡ false
      → Ready (
          clamped input vault conversions (
            refresh_records input vault conversions v
              (record m { screen = listing; opened = some v })))
  unfolding refresh_records
  refreshed-IsReady v m cursors quiet = clamped-cases input vault conversions Ready _ λ n h. (
    (h, length-map (label input vault conversions v) (vault.list v), cursors.2),
    (omega arith, quiet),
  )

  update_delete_confirm-GoesOn :
      (now : Time) (k : Key) (m : State)
      → Laws vault
      → Ready (on listing m)
      → Safe (update_delete_confirm input vault conversions now k (on listing m))
  unfolding update_delete_confirm
  update_delete_confirm-GoesOn now k m laws ready =
      if-cases Safe (not (key_string k == "y")) _ _ (λ _. inr ready)
        λ _. with_store input vault conversions m.opened m.records _ ready.1.0 λ v _ held.
          let r = vault.delete now m.confirm_delete_id v in
          elim (Result-cases r.0) [
            | inr (x, e) ↦
                let same = laws.delete-refused now m.confirm_delete_id v (λ p. ground arith) in
                rw e (inr (ready.0, (rw same held, ready.1.1)))
            | inl (x, e) ↦ rw e (
                inr (
                  refreshed-IsReady r.1
                    (record m { confirm_delete_id = ""; confirm_delete_label = ""; error = none })
                    ready.0 ready.1.1))
          ]

  enter_list-GoesOn :
      (now : Time) (m : State)
      → Laws vault
      → Ready (on listing m)
      → CanShow input vault conversions m
      → Safe (enter_list input vault conversions now (on listing m))
  unfolding enter_list
  enter_list-GoesOn now m laws ready showable =
      empty-cases Safe m.records _ _ (inr ready) λ some_left.
        bind-GoesOn input vault conversions _ _
          (get_elem?-Returns m.records m.cursor (omega (arith, ready.0.0)))
          λ dto _. with_store input vault conversions m.opened m.records _ ready.1.0 λ v there held.
            let (m', e, kept) =
              open_detail-IsReady input vault conversions now v dto (on listing m) laws
                (λ d at. showable v d there at) ready.0.0 in
            rw e (inr (kept ready))

  ask_delete-GoesOn :
      (m : State) → Ready (on listing m) → Safe (ask_delete input vault conversions (on listing m))
  unfolding ask_delete
  ask_delete-GoesOn m ready =
      let (cursor, labels, _) = ready.0 in
      empty-cases Safe m.records _ _ (inr ready) λ some_left.
        bind-GoesOn input vault conversions _ _ (get_elem?-Returns m.records m.cursor (omega arith))
          λ dto _.
            bind-GoesOn input vault conversions _ _
              (get_elem?-Returns m.record_labels m.cursor (omega arith)) λ name _. inr ready

  start_sync-GoesOn :
      (m : State) → Ready (on listing m) → Safe (start_sync input vault conversions (on listing m))
  unfolding start_sync
  start_sync-GoesOn m ready =
      if-cases Safe m.syncing _ _ (λ _. inr ready)
        λ _. elim (Option-cases m.opened) [
          | inl e ↦ rw e (inr ready)
          | inr (v, e) ↦ rw e (inr ready)
        ]

  pub update_list-GoesOn :
      (now : Time) (k : Key) (m : State)
      → Laws vault
      → Ready (on listing m)
      → CanShow input vault conversions m
      → Safe (update_list input vault conversions now k (on listing m))
  unfolding update_list
  update_list-GoesOn now k m laws ready showable =
      let s = key_string k in
      if-cases Safe (not (m.confirm_delete_id == "")) _ _
        (λ _. update_delete_confirm-GoesOn now k m laws ready)
        λ _.
          if-cases Safe (s == "ctrl+c" || s == "q") _ _ (λ _. leave-GoesOn (on listing m))
            λ _.
              if-cases Safe (s == "up" || s == "k") _ _
                (λ _. inr ((omega (arith, ready.0.0), ready.0.1, ready.0.2), ready.1))
                λ _.
                  if-cases Safe (s == "down" || s == "j") _ _
                    (λ _. inr (
                      if-cases Ready (ltb (m.cursor + 1) (length m.records)) _ (on listing m)
                        (λ e. ((ground arith, ready.0.1, ready.0.2), ready.1)) (λ _. ready)))
                    λ _.
                      if-cases Safe (s == "s") _ _ (λ _. start_sync-GoesOn m ready)
                        λ _.
                          if-cases Safe (s == "enter") _ _
                            (λ _. enter_list-GoesOn now m laws ready showable)
                            λ _.
                              if-cases Safe (s == "n") _ _
                                (λ _. inr ((ready.0.0, ready.0.1, omega arith), ready.1))
                                λ _.
                                  if-cases Safe (s == "d") _ _ (λ _. ask_delete-GoesOn m ready)
                                    (λ _. inr ready)

  pub update_detail-GoesOn :
      (k : Key) (m : State)
      → Laws vault
      → Ready (on detail m)
      → Safe (update_detail input vault conversions k (on detail m))
  unfolding update_detail
  update_detail-GoesOn k m laws ready =
      let s = key_string k in
      if-cases Safe (s == "ctrl+c" || s == "q") _ _ (λ _. leave-GoesOn (on detail m))
        λ _.
          if-cases Safe (s == "esc" || s == "b") _ _ (λ _. inr ready)
            λ _.
              if-cases Safe (s == "e") _ _
                (λ _. empty-cases Safe m.records _ _ (inr ready) λ some_left.
                  bind-GoesOn input vault conversions _ _
                    (get_elem?-Returns m.records m.cursor (omega (arith, ready.0.0)))
                    λ dto _.
                      with_store input vault conversions m.opened m.records _ ready.1.0 λ v _ held.
                        let (m', e, after) =
                          start_edit-IsReady input vault conversions v dto m laws ready in
                        rw e (inr after))
                (λ _. inr ready)
