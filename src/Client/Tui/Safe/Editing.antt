-- ===== src/Client/Tui/Safe/Editing.antt =====
-- The messages on the screens of the form.
use native.Mathlib.Nat.{mod-lt}
use voldepass.Prelude.{
  ℕ, ◌+◌, ◌≤◌, ◌<◌, ◌∙◌, length, arith, inl, inr, if-cases, length-map, ltb, not, ◌==◌, ◌||◌,
}
use voldepass.Domain.{Bytes, Time, DataType, Result, Result-cases}
use voldepass.Client.Tui.Input.{
  TextInput, Conversions, Key, ctrl_c, esc, tab, shift_tab, up, down, enter, text,
}
use voldepass.Client.Tui.Form.{Payload, build_add_form_fields}
use voldepass.Client.Tui.Model.{
  Vault, Screen, add_type, add_form, add_type_options, key_string, Model, Updated, refresh_records,
  label,
}
use voldepass.Client.Tui.Safe.Fields.{change_at-some, build_add_payload-Returns}
use voldepass.Client.Tui.Safe.Ready.{
  Laws, get_elem?-Returns, IsReady, GoesOn, shown, bind-GoesOn, Result-GoesOn, with_store,
}
use voldepass.Client.Tui.Editing.{
  enter_add_type, update_add_type, submitted, saved_as, save_form, submit_add_form, move_focus,
  next_focus, previous_focus, type_form, update_add_form,
}

module _ (input : TextInput) (vault : Vault) (conversions : Conversions) where
  abbrev State : Type 0
  State = Model input vault conversions

  abbrev Safe : Updated input vault conversions → Type 0
  Safe = GoesOn input vault conversions

  abbrev Ready : State → Type 0
  Ready = IsReady input vault conversions

  abbrev on : Screen → State → State
  on = shown input vault conversions

  build_add_form_fields-pos : (t : DataType) → 0 < length (build_add_form_fields input t)
  unfolding build_add_form_fields
  build_add_form_fields-pos t = omega arith

  enter_add_type-GoesOn :
      (m : State)
      → Ready (on add_type m)
      → Safe (enter_add_type input vault conversions (on add_type m))
  unfolding enter_add_type
  enter_add_type-GoesOn m ready =
      bind-GoesOn input vault conversions _ _
        (get_elem?-Returns add_type_options m.add_type_cursor ready.0.2)
        λ t e.
          let (fs, f, same) =
            change_at-some input 0 input.focus (build_add_form_fields input t)
              (build_add_form_fields-pos t) in
          let pos = build_add_form_fields-pos t in
          rw f (inr (ready.0, (ready.1.0, ready.1.1, (omega arith, same))))

  pub update_add_type-GoesOn :
      (k : Key) (m : State)
      → Ready (on add_type m)
      → Safe (update_add_type input vault conversions k (on add_type m))
  unfolding update_add_type
  update_add_type-GoesOn k m ready =
      let s = key_string k in
      if-cases Safe (s == "ctrl+c" || s == "esc") _ _ (λ _. inr ready)
        (λ _.
          if-cases Safe (s == "up" || s == "k") _ _
            (λ _. inr ((ready.0.0, ready.0.1, omega arith), ready.1))
            (λ _.
              if-cases Safe (s == "down" || s == "j") _ _
                (λ _. inr (
                  if-cases Ready (ltb (m.add_type_cursor + 1) (length add_type_options))
                    (record m { screen = add_type; add_type_cursor = m.add_type_cursor + 1 })
                    (on add_type m) (λ e. ((ready.0.0, ready.0.1, ground arith), ready.1))
                    (λ _. ready)))
                (λ _.
                  if-cases Safe (s == "enter") _ _ (λ _. enter_add_type-GoesOn m ready)
                    (λ _. inr ready))))

  move_focus-GoesOn :
      (to : ℕ) (m : State)
      → to < length m.add_fields
      → Ready (on add_form m)
      → Safe (move_focus input vault conversions to (on add_form m))
  unfolding move_focus
  move_focus-GoesOn to m h ready =
      let filled = ready.1.2 in
      let (fs, f, same) = change_at-some input m.add_focus input.blur m.add_fields filled.0 in
      let (gs, g, same') = change_at-some input to input.focus fs (omega arith) in
      rw (move_focus, f, g)
        (inr (ready.0, (ready.1.0, ready.1.1, (omega arith, same' ∙ same ∙ filled.1))))

  type_form-GoesOn :
      (k : Key) (m : State)
      → Ready (on add_form m)
      → Safe (type_form input vault conversions k (on add_form m))
  unfolding type_form
  type_form-GoesOn k m ready =
      let (fs, f, same) =
        change_at-some input m.add_focus (input.update k) m.add_fields ready.1.2.0 in
      let filled = ready.1.2 in
      rw (type_form, f) (inr (ready.0, (ready.1.0, ready.1.1, (omega arith, same ∙ filled.1))))

  submitted-IsReady :
      (v : vault.State) (m : State)
      → length m.records ≤ length (vault.list v)
      → Ready (on add_form m)
      → Ready (submitted input vault conversions v (on add_form m))
  unfolding submitted refresh_records
  submitted-IsReady v m h ready = (
    (omega arith, length-map (label input vault conversions v) (vault.list v), ready.0.2),
    (omega arith, ready.1.1),
  )

  saved_as-length :
      (now : Time) (meta : Bytes) (p : Payload) (m : State) (v : vault.State)
      → Laws vault
      → length (vault.list v)
        ≤ length (vault.list (saved_as input vault conversions now meta p m v).1)
  unfolding saved_as
  saved_as-length now meta p m v laws =
      if-cases
        (λ (x : Result (Unit {0}) × vault.State). length (vault.list v) ≤ length (vault.list x.1))
        (not (m.editing_id == "")) _ _ (λ _. laws.update-length now m.editing_id meta p v)
        (λ _. laws.create-length now m.add_data_type meta p v)

  save_form-GoesOn :
      (now : Time) (meta : Bytes) (p : Payload) (m : State)
      → Laws vault
      → Ready (on add_form m)
      → Safe (save_form input vault conversions now meta p (on add_form m))
  unfolding save_form
  save_form-GoesOn now meta p m laws ready =
      with_store input vault conversions m.opened m.records _ ready.1.0 λ v _ held.
        let more = saved_as-length now meta p (on add_form m) v laws in
        let r = saved_as input vault conversions now meta p (on add_form m) v in
        elim (Result-cases r.0) [
          | inr (x, e) ↦ rw e (inr (ready.0, (omega arith, ready.1.1, ready.1.2)))
          | inl (x, e) ↦ rw e (inr (submitted-IsReady r.1 m (omega arith) ready))
        ]

  has_fields : (m : State) → Ready (on add_form m) → 0 < length m.add_fields
  has_fields m ready = let filled = ready.1.2 in omega arith

  submit_add_form-GoesOn :
      (now : Time) (m : State)
      → Laws vault
      → Ready (on add_form m)
      → Safe (submit_add_form input vault conversions now (on add_form m))
  unfolding submit_add_form
  submit_add_form-GoesOn now m laws ready =
      bind-GoesOn input vault conversions _ _
        (build_add_payload-Returns input conversions m.add_data_type m.add_fields ready.1.2.1)
        λ built e.
          Result-GoesOn input vault conversions built _ _ (λ x. inr ready)
            (λ (meta, p). save_form-GoesOn now meta p m laws ready)

  pub update_add_form-GoesOn :
      (now : Time) (k : Key) (m : State)
      → Laws vault
      → Ready (on add_form m)
      → Safe (update_add_form input vault conversions now k (on add_form m))
  unfolding update_add_form next_focus previous_focus
  update_add_form-GoesOn now ctrl_c m laws ready = inr (ready.0, (ready.1.0, ready.1.1))
  update_add_form-GoesOn now esc m laws ready = inr (ready.0, (ready.1.0, ready.1.1))
  update_add_form-GoesOn now tab m laws ready =
      move_focus-GoesOn _ m (mod-lt _ (has_fields m ready)) ready
  update_add_form-GoesOn now down m laws ready =
      move_focus-GoesOn _ m (mod-lt _ (has_fields m ready)) ready
  update_add_form-GoesOn now shift_tab m laws ready =
      move_focus-GoesOn _ m (mod-lt _ (has_fields m ready)) ready
  update_add_form-GoesOn now up m laws ready =
      move_focus-GoesOn _ m (mod-lt _ (has_fields m ready)) ready
  update_add_form-GoesOn now enter m laws ready =
      if-cases Safe (ltb (m.add_focus + 1) (length m.add_fields)) _ _
        (λ e. move_focus-GoesOn (m.add_focus + 1) m (ground arith) ready)
        (λ _. submit_add_form-GoesOn now m laws ready)
  update_add_form-GoesOn now (text s) m laws ready = type_form-GoesOn (text s) m ready
