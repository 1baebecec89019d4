-- ===== src/Client/Tui/Safe/Update.antt =====
-- The messages before the list, the answers, and all messages together.
use voldepass.Prelude.{
  ℕ, zero, suc, ◌+◌, ◌%◌, ◌≡◌, refl, String, Option, none, some, List, length, arith, inl, inr,
  true, false, if-cases, length-map, map, ltb,
}
use voldepass.Domain.{Time, RecordDto, Result, ok, err}
use voldepass.Client.Tui.Input.{
  TextInput, Conversions, Key, ctrl_c, esc, tab, shift_tab, up, down, enter, text,
}
use voldepass.Client.Tui.Model.{
  Vault, Screen, login, listing, detail, add_type, add_form, Shown, conflicts, Model, Msg, key,
  otp_tick, session_result, sync_result, Updated, refresh_records, clamped, label,
}
use voldepass.Client.Tui.Safe.Ready.{
  Laws, empty-cases, Holds, OnScreen, IsReady, GoesOn, IsExpected, CanShow, Shows, shown,
  bind-GoesOn, with_store, clamped-cases,
}
use voldepass.Client.Tui.Safe.Editing.{update_add_type-GoesOn, update_add_form-GoesOn}
use voldepass.Client.Tui.Safe.Messages.{update_list-GoesOn, update_detail-GoesOn}
use voldepass.Client.Tui.Safe.Opening.{refresh_otp-Returns}
use voldepass.Client.Tui.Update.{
  handle_session_result, handle_sync_result, apply_focus, type_login, update_login, tick_detail,
  update,
}

focus-cases {κ} :
    {A : Type 0} (P : A → Type κ) (n : ℕ) (a b : A)
    → P a
    → P b
    → P (elim n [ zero ↦ a | suc _ ↦ b ])
focus-cases P zero a b h g = h
focus-cases P (suc n) a b h g = g

module _ (input : TextInput) (vault : Vault) (conversions : Conversions) where
  abbrev State : Type 0
  State = Model input vault conversions

  abbrev Safe : Updated input vault conversions → Type 0
  Safe = GoesOn input vault conversions

  abbrev Ready : State → Type 0
  Ready = IsReady input vault conversions

  abbrev on : Screen → State → State
  on = shown input vault conversions

  type_login-GoesOn :
      (k : Key) (m : State)
      → Ready (on login m)
      → Ready (type_login input vault conversions k (on login m))
  unfolding type_login
  type_login-GoesOn k m ready = focus-cases Ready m.focus _ _ ready ready

  update_login-GoesOn :
      (k : Key) (m : State)
      → Ready (on login m)
      → Safe (update_login input vault conversions k (on login m))
  unfolding update_login apply_focus
  update_login-GoesOn ctrl_c m ready = inl refl
  update_login-GoesOn esc m ready = inl refl
  update_login-GoesOn tab m ready = inr (focus-cases Ready ((m.focus + 1) % 2) _ _ ready ready)
  update_login-GoesOn enter m ready =
      if-cases Safe m.logging_in _ _ (λ _. inr ready) (λ _. inr ready)
  update_login-GoesOn shift_tab m ready = inr (type_login-GoesOn shift_tab m ready)
  update_login-GoesOn up m ready = inr (type_login-GoesOn up m ready)
  update_login-GoesOn down m ready = inr (type_login-GoesOn down m ready)
  update_login-GoesOn (text s) m ready = inr (type_login-GoesOn (text s) m ready)

  tick_detail-GoesOn :
      (now : Time) (m : State)
      → Laws vault
      → Ready (on detail m)
      → CanShow input vault conversions m
      → Safe (tick_detail input vault conversions now (on detail m))
  unfolding tick_detail
  tick_detail-GoesOn now m laws ready showable =
      empty-cases Safe m.records _ _ (inr ready) λ some_left.
        with_store input vault conversions m.opened m.records _ ready.1.0 λ v there held.
          let (code, e) =
            refresh_otp-Returns input vault conversions now v (on detail m) laws
              (λ d at. showable v d there at) ready.0.0 in
          rw e (inr ready)

  -- An answer to the login comes on the screen of the login.
  session_result-GoesOn :
      (r : Result vault.State) (s : Screen) (m : State)
      → m.logging_in ≡ true
      → Ready (on s m)
      → Safe (handle_session_result input vault conversions r (on s m))
  unfolding handle_session_result refresh_records
  session_result-GoesOn (err e) login m asked ready = inr ready
  session_result-GoesOn (ok v) login m asked ready =
      let start = ready.1.0 in
      inr (
        (omega arith, length-map (label input vault conversions v) (vault.list v), ready.0.2),
        (omega arith, refl),
      )
  session_result-GoesOn r listing m asked ready = let q = ready.1.1 in absurd (ground arith)
  session_result-GoesOn r detail m asked ready = let q = ready.1.1 in absurd (ground arith)
  session_result-GoesOn r add_type m asked ready = let q = ready.1.1 in absurd (ground arith)
  session_result-GoesOn r add_form m asked ready = let q = ready.1.1 in absurd (ground arith)

  -- The list is read again wherever the interface is by then.
  relisted-OnScreen :
      (v : vault.State) (s : Screen) (m : State)
      → m.opened ≡ some v
      → m.syncing ≡ true
      → OnScreen input vault conversions s (on s m)
      → (error : Option Shown) (labels : List String) (n : ℕ)
      → OnScreen input vault conversions s (record m {
        screen = s;
        error = error;
        syncing = false;
        records = vault.list v;
        record_labels = labels;
        cursor = n;
        last_sync_at = vault.last_sync_at v;
      })
  relisted-OnScreen v login m e asked h error labels n = let q = h.1 in absurd (ground arith)
  relisted-OnScreen v listing m e asked h error labels n = (rw e (omega arith), h.1)
  relisted-OnScreen v detail m e asked h error labels n = (rw e (omega arith), h.1)
  relisted-OnScreen v add_type m e asked h error labels n = (rw e (omega arith), h.1)
  relisted-OnScreen v add_form m e asked h error labels n = (rw e (omega arith), h.1, h.2)

  Holds-some :
      (o : Option vault.State) (rs : List RecordDto)
      → Holds input vault conversions o rs
      → (v : vault.State) × (o ≡ some v)
  Holds-some none rs h = absurd h
  Holds-some (some v) rs h = (v, refl)

  -- A synchronisation was asked for, so the store is there.
  syncing-opened :
      (s : Screen) (m : State)
      → m.syncing ≡ true
      → OnScreen input vault conversions s (on s m)
      → (v : vault.State) × (m.opened ≡ some v)
  syncing-opened login m asked h = let q = h.1 in absurd (ground arith)
  syncing-opened listing m asked h = Holds-some m.opened m.records h.0
  syncing-opened detail m asked h = Holds-some m.opened m.records h.0
  syncing-opened add_type m asked h = Holds-some m.opened m.records h.0
  syncing-opened add_form m asked h = Holds-some m.opened m.records h.0

  sync_result-GoesOn :
      (r : Result (List RecordDto)) (s : Screen) (m : State)
      → m.syncing ≡ true
      → Ready (on s m)
      → Safe (handle_sync_result input vault conversions r (on s m))
  unfolding handle_sync_result refresh_records
  sync_result-GoesOn (err e) login m asked ready = let q = ready.1.1 in absurd (ground arith)
  sync_result-GoesOn (err e) listing m asked ready = inr ready
  sync_result-GoesOn (err e) detail m asked ready = inr ready
  sync_result-GoesOn (err e) add_type m asked ready = inr ready
  sync_result-GoesOn (err e) add_form m asked ready = inr ready
  sync_result-GoesOn (ok left) s m asked ready =
      let with_conflicts : State → State =
        λ x. record x { error = some (conflicts (length left)) } in
      bind-GoesOn input vault conversions m.opened _ (syncing-opened s m asked ready.1) λ v e.
        let labels = map (label input vault conversions v) (vault.list v) in
        let relisted : State = record m {
          screen = s;
          error = none;
          syncing = false;
          records = vault.list v;
          record_labels = labels;
          last_sync_at = vault.last_sync_at v;
        } in
        let with_labels = length-map (label input vault conversions v) (vault.list v) in
        let below = relisted-OnScreen v s m e asked ready.1 in
        inr (
          if-cases Ready (ltb 0 (length left))
            (with_conflicts (clamped input vault conversions relisted))
            (clamped input vault conversions relisted)
            (λ _.
              clamped-cases input vault conversions (λ (x : State). Ready (with_conflicts x))
                relisted
                λ n h.
                  ((h, with_labels, ready.0.2), below (some (conflicts (length left))) labels n))
            (λ _.
              clamped-cases input vault conversions Ready relisted
                λ n h. ((h, with_labels, ready.0.2), below none labels n)))

  key-GoesOn :
      (now : Time) (k : Key) (s : Screen) (m : State)
      → Laws vault
      → Ready (on s m)
      → Shows input vault conversions (key k) s m
      → Safe (update input vault conversions now (key k) (on s m))
  unfolding update
  key-GoesOn now k login m laws ready _ = update_login-GoesOn k m ready
  key-GoesOn now k listing m laws ready showable =
      update_list-GoesOn input vault conversions now k m laws ready showable
  key-GoesOn now k detail m laws ready _ =
      update_detail-GoesOn input vault conversions k m laws ready
  key-GoesOn now k add_type m laws ready _ =
      update_add_type-GoesOn input vault conversions k m ready
  key-GoesOn now k add_form m laws ready _ =
      update_add_form-GoesOn input vault conversions now k m laws ready

  otp_tick-GoesOn :
      (now : Time) (s : Screen) (m : State)
      → Laws vault
      → Ready (on s m)
      → Shows input vault conversions otp_tick s m
      → Safe (update input vault conversions now otp_tick (on s m))
  unfolding update
  otp_tick-GoesOn now login m laws ready _ = inr ready
  otp_tick-GoesOn now listing m laws ready _ = inr ready
  otp_tick-GoesOn now detail m laws ready showable = tick_detail-GoesOn now m laws ready showable
  otp_tick-GoesOn now add_type m laws ready _ = inr ready
  otp_tick-GoesOn now add_form m laws ready _ = inr ready

  -- Whatever message comes, with any key, the interface does not panic if it is ready: it ends, or is
  -- ready again. It is ready if its cursors are in range, each record of the list has a label, the
  -- store behind it has at least as many records as the list shows, an open form has the fields of
  -- its type, and a login or a synchronisation is only under way on a screen where one can be. The
  -- vault has to keep its laws, an answer comes only to what was asked for, and where the message
  -- can ask for a code (a key on the list, or a tick on the screen of a record), the record under
  -- the cursor, if it is one of an OTP that can be decoded, has from 0 to 9 digits.
  pub update-GoesOn :
      (now : Time) (msg : Msg input vault conversions) (m : State)
      → Laws vault
      → Ready m
      → IsExpected input vault conversions msg m
      → Shows input vault conversions msg m.screen m
      → Safe (update input vault conversions now msg m)
  unfolding update
  update-GoesOn now (key k) m laws ready _ showable =
      key-GoesOn now k m.screen m laws ready showable
  update-GoesOn now otp_tick m laws ready _ showable =
      otp_tick-GoesOn now m.screen m laws ready showable
  update-GoesOn now (session_result r) m laws ready asked _ =
      session_result-GoesOn r m.screen m asked ready
  update-GoesOn now (sync_result r) m laws ready asked _ =
      sync_result-GoesOn r m.screen m asked ready
