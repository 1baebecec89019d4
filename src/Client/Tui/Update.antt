-- ===== src/Client/Tui/Update.antt =====
-- internal/client/tui/model.go: what each message does.
use voldepass.Prelude.{
  zero, suc, ◌+◌, ◌-◌, ◌%◌, true, false, ◌||◌, not, none, some, List, [], ◌∷◌, length, ◌==◌, ltb,
  if◌then◌else◌, get_elem?,
}
use voldepass.Domain.{Time, RecordDto, Result, ok, err}
use voldepass.Client.Tui.Input.{◌>>=◌, Key, ctrl_c, esc, tab, enter, TextInput, Conversions}
use voldepass.Client.Tui.Model.{
  Vault, login, listing, detail, add_type, add_form, failure, conflicts, idle, quit, blink, tick,
  sync, log_in, key_string, Model, Msg, key, otp_tick, session_result, sync_result, Updated,
  refresh_records, clamped, refresh_otp, open_detail, start_edit,
}
use voldepass.Client.Tui.Editing.{update_add_type, update_add_form}

module _ (input : TextInput) (vault : Vault) (conversions : Conversions) where
  abbrev State : Type 0
  State = Model input vault conversions

  abbrev Next : Type 0
  Next = Updated input vault conversions

  -- handleSessionResult
  unfoldable pub handle_session_result : Result vault.State → State → Next
  unfolding refresh_records
  handle_session_result (err e) m =
      some (record m { logging_in = false; error = some (failure e) }, idle)
  handle_session_result (ok v) m =
      let m' =
        refresh_records input vault conversions v
          (record m { logging_in = false; error = none; opened = some v }) in
      some (record m' { last_sync_at = vault.last_sync_at v; screen = listing }, idle)

  -- handleSyncResult
  unfoldable pub handle_sync_result : Result (List RecordDto) → State → Next
  unfolding refresh_records
  handle_sync_result (err e) m = some (record m { syncing = false; error = some (failure e) }, idle)
  handle_sync_result (ok left) m = m.opened >>= λ v.
      let m' = clamped input vault conversions (
        refresh_records input vault conversions v
          (record m { syncing = false; error = none; last_sync_at = vault.last_sync_at v })) in
      some (
        if ltb 0 (length left) then record m' { error = some (conflicts (length left)) } else m',
        idle,
      )

  -- applyFocus
  unfoldable pub apply_focus : State → State
  apply_focus m = elim m.focus [
    | zero ↦ record m {
      login_input = input.focus m.login_input;
      password_input = input.blur m.password_input;
    }
    | suc n ↦ record m {
      login_input = input.blur m.login_input;
      password_input = input.focus m.password_input;
    }
  ]

  -- The input of updateLogin
  unfoldable pub type_login : Key → State → State
  type_login k m = elim m.focus [
    | zero ↦ record m { login_input = input.update k m.login_input }
    | suc n ↦ record m { password_input = input.update k m.password_input }
  ]

  -- updateLogin
  unfoldable pub update_login : Key → State → Next
  unfolding apply_focus type_login
  update_login ctrl_c m = some (record m { quitting = true }, quit)
  update_login esc m = some (record m { quitting = true }, quit)
  update_login tab m = some (apply_focus (record m { focus = (m.focus + 1) % 2 }), idle)
  update_login enter m =
      if m.logging_in
      then some (m, idle)
      else some (
        record m { logging_in = true; error = none },
        log_in (input.value m.login_input) (input.value m.password_input),
      )
  update_login k m = some (type_login k m, blink)

  -- Leaving the program from the list or a record: the session is closed first.
  unfoldable pub leave : State → Next
  leave m = elim m.opened [
    | none ↦ some (record m { quitting = true }, quit)
    | some v ↦ some (record m { quitting = true; opened = some (vault.close v) }, quit)
  ]

  -- updateDeleteConfirm
  unfoldable pub update_delete_confirm : Time → Key → State → Next
  unfolding refresh_records
  update_delete_confirm now k m =
      let m' = record m { confirm_delete_id = ""; confirm_delete_label = "" } in
      if not (key_string k == "y")
      then some (m', idle)
      else m.opened >>= λ v.
          let (deleted, v') = vault.delete now m.confirm_delete_id v in
          elim deleted [
            | err e ↦ some (record m' { opened = some v'; error = some (failure e) }, idle)
            | ok _ ↦ some (
              clamped input vault conversions (
                  refresh_records input vault conversions v'
                    (record m' { opened = some v'; error = none })),
              idle,
            )
          ]

  -- The key Enter of updateList.
  unfoldable pub enter_list : Time → State → Next
  unfolding open_detail
  enter_list now m = elim m.records [
    | [] ↦ some (m, idle)
    | _ ∷ _ ↦ do
      dto ← get_elem? m.records m.cursor
      v ← m.opened
      m' ← open_detail input vault conversions now v dto m
      some (record m' { screen = detail }, tick)
  ]

  -- The key d of updateList.
  unfoldable pub ask_delete : State → Next
  ask_delete m = elim m.records [
    | [] ↦ some (m, idle)
    | _ ∷ _ ↦ do
      dto ← get_elem? m.records m.cursor
      name ← get_elem? m.record_labels m.cursor
      some
          (record m { error = none; confirm_delete_id = dto.id; confirm_delete_label = name }, idle)
  ]

  -- The key s of updateList.
  unfoldable pub start_sync : State → Next
  start_sync m = if m.syncing then some (m, idle) else elim m.opened [
    | none ↦ some (m, idle)
    | some v ↦ some (record m { syncing = true; error = none }, sync)
  ]

  -- updateList
  unfoldable pub update_list : Time → Key → State → Next
  unfolding update_delete_confirm leave start_sync enter_list ask_delete
  update_list now k m =
      let s = key_string k in
      if not (m.confirm_delete_id == "")
      then update_delete_confirm now k m
      else if s == "ctrl+c" || s == "q"
      then leave m
      else if s == "up" || s == "k"
      then some (record m { cursor = m.cursor - 1 }, idle)
      else if s == "down" || s == "j"
      then some (
        if ltb (m.cursor + 1) (length m.records) then record m { cursor = m.cursor + 1 } else m,
        idle,
      )
      else if s == "s"
      then start_sync m
      else if s == "enter"
      then enter_list now m
      else if s == "n"
      then some
          (record m { error = none; editing_id = ""; add_type_cursor = 0; screen = add_type }, idle)
      else if s == "d"
      then ask_delete m
      else some (m, idle)

  -- updateDetail
  unfoldable pub update_detail : Key → State → Next
  unfolding leave start_edit
  update_detail k m =
      let s = key_string k in
      if s == "ctrl+c" || s == "q"
      then leave m
      else if s == "esc" || s == "b"
      then some (record m { screen = listing }, idle)
      else if s == "e"
      then elim m.records [
        | [] ↦ some (m, idle)
        | _ ∷ _ ↦ do
          dto ← get_elem? m.records m.cursor
          v ← m.opened
          m' ← start_edit input vault conversions v dto m
          some (m', idle)
      ]
      else some (m, idle)

  -- The tick of the code on screenDetail.
  unfoldable pub tick_detail : Time → State → Next
  unfolding refresh_otp
  tick_detail now m = elim m.records [
    | [] ↦ some (m, tick)
    | _ ∷ _ ↦ do v ← m.opened; m' ← refresh_otp input vault conversions now v m; some (m', tick)
  ]

  -- Update
  unfoldable pub update : Time → Msg input vault conversions → State → Next
  unfolding update_login update_list update_detail update_add_type update_add_form tick_detail
      handle_session_result handle_sync_result
  update now (key k) m = elim m.screen [
    | login ↦ update_login k m
    | listing ↦ update_list now k m
    | detail ↦ update_detail k m
    | add_type ↦ update_add_type input vault conversions k m
    | add_form ↦ update_add_form input vault conversions now k m
  ]
  update now otp_tick m = elim m.screen [ detail ↦ tick_detail now m | _ ↦ some (m, idle) ]
  update now (session_result r) m = handle_session_result r m
  update now (sync_result r) m = handle_sync_result r m
