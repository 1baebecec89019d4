-- ===== src/Client/Tui/Editing.antt =====
-- internal/client/tui/model.go: choosing the type of a record, filling its form, and saving it.
use voldepass.Prelude.{
  ℕ, ◌+◌, ◌-◌, ◌%◌, ◌||◌, not, none, some, [], length, ◌==◌, ltb, if◌then◌else◌, get_elem?,
}
use voldepass.Domain.{Bytes, Time, Result, ok, err}
use voldepass.Client.Tui.Input.{
  ◌>>=◌, Key, ctrl_c, esc, tab, shift_tab, up, down, enter, TextInput, Conversions,
}
use voldepass.Client.Tui.Form.{Payload, build_add_form_fields, build_add_payload, change_at}
use voldepass.Client.Tui.Model.{
  Vault, listing, add_form, failure, idle, blink, add_type_options, key_string, Model, Updated,
  refresh_records,
}

module _ (input : TextInput) (vault : Vault) (conversions : Conversions) where
  abbrev State : Type 0
  State = Model input vault conversions

  abbrev Next : Type 0
  Next = Updated input vault conversions

  -- The key Enter of updateAddType.
  unfoldable pub enter_add_type : State → Next
  enter_add_type m = do
    t ← get_elem? add_type_options m.add_type_cursor
    fields ← change_at input 0 input.focus (build_add_form_fields input t)
    some (
      record m { add_data_type = t; add_fields = fields; add_focus = 0; screen = add_form },
      idle,
    )

  -- updateAddType
  unfoldable pub update_add_type : Key → State → Next
  unfolding enter_add_type
  update_add_type k m =
      let s = key_string k in
      if s == "ctrl+c" || s == "esc"
      then some (record m { screen = listing }, idle)
      else if s == "up" || s == "k"
      then some (record m { add_type_cursor = m.add_type_cursor - 1 }, idle)
      else if s == "down" || s == "j"
      then some (
        if ltb (m.add_type_cursor + 1) (length add_type_options)
            then record m { add_type_cursor = m.add_type_cursor + 1 }
            else m,
        idle,
      )
      else if s == "enter"
      then enter_add_type m
      else some (m, idle)

  -- The end of submitAddForm.
  unfoldable pub submitted : vault.State → State → State
  unfolding refresh_records
  submitted v m =
      let m' =
        refresh_records input vault conversions v
          (record m { opened = some v; error = none; editing_id = "" }) in
      record m' { add_fields = []; screen = listing }

  -- What is saved: a new version of the record that is edited, or a new record.
  unfoldable pub saved_as :
      Time → Bytes → Payload → State → vault.State → Result (Unit {0}) × vault.State
  saved_as now meta p m v =
      if not (m.editing_id == "")
      then vault.update now m.editing_id meta p v
      else vault.create now m.add_data_type meta p v

  unfoldable pub save_form : Time → Bytes → Payload → State → Next
  unfolding submitted
  save_form now meta p m = m.opened >>= λ v.
      let (saved, v') = saved_as now meta p m v in
      elim saved [
        | err e ↦ some (record m { opened = some v'; error = some (failure e) }, idle)
        | ok _ ↦ some (submitted v' m, idle)
      ]

  -- submitAddForm
  unfoldable pub submit_add_form : Time → State → Next
  unfolding save_form
  submit_add_form now m = do
    built ← build_add_payload input conversions m.add_data_type m.add_fields
    elim built [
      | err e ↦ some (record m { error = some (failure e) }, idle)
      | ok (meta, p) ↦ save_form now meta p m
    ]

  -- The focus goes from one field of the form to another.
  unfoldable pub move_focus : ℕ → State → Next
  move_focus to m = do
    left ← change_at input m.add_focus input.blur m.add_fields
    fields ← change_at input to input.focus left
    some (record m { add_fields = fields; add_focus = to }, idle)

  unfoldable pub next_focus : State → ℕ
  next_focus m = (m.add_focus + 1) % length m.add_fields

  unfoldable pub previous_focus : State → ℕ
  previous_focus m = (m.add_focus + length m.add_fields - 1) % length m.add_fields

  -- The input of updateAddForm
  unfoldable pub type_form : Key → State → Next
  type_form k m = do
    fields ← change_at input m.add_focus (input.update k) m.add_fields
    some (record m { add_fields = fields }, blink)

  abbrev pub close_form : State → Next
  close_form m = some (record m { add_fields = []; editing_id = ""; screen = listing }, idle)

  -- updateAddForm
  unfoldable pub update_add_form : Time → Key → State → Next
  unfolding move_focus next_focus previous_focus submit_add_form type_form
  update_add_form now ctrl_c m = close_form m
  update_add_form now esc m = close_form m
  update_add_form now tab m = move_focus (next_focus m) m
  update_add_form now down m = move_focus (next_focus m) m
  update_add_form now shift_tab m = move_focus (previous_focus m) m
  update_add_form now up m = move_focus (previous_focus m) m
  update_add_form now enter m =
      if ltb (m.add_focus + 1) (length m.add_fields)
      then move_focus (m.add_focus + 1) m
      else submit_add_form now m
  update_add_form now k m = type_form k m
