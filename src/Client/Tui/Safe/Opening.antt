-- ===== src/Client/Tui/Safe/Opening.antt =====
-- Opening a record, to show it or to edit it, and the code of an OTP.
use voldepass.Prelude.{
  ◌-◌, ◌≤◌, ◌≡◌, refl, ap, ◌∙◌, String, Option, none, some, ◌∷◌, length, eqb, arith, inl, inr, true,
  if-cases, get_elem?,
}
use voldepass.Domain.{Time, data_type_otp, RecordDto, ok, Result-cases}
use voldepass.Client.Tui.Input.{TextInput, Conversions}
use voldepass.Client.Tui.Form.{
  Payload, build_add_form_fields, new_payload_target, populate_edit_fields, edit_values,
}
use voldepass.Client.Tui.Model.{
  Vault, Screen, detail, add_form, failure, Model, refresh_otp, open_detail, start_edit, show_otp,
}
use voldepass.Client.Tui.Safe.Fields.{
  kind-otp, Returns, change_at-some, set_values-some, length-edit_values,
}
use voldepass.Client.Tui.Safe.Ready.{
  Laws, get_elem?-Returns, empty-cases, IsReady, IsShowable, shown,
}

module _ (input : TextInput) (vault : Vault) (conversions : Conversions) where
  abbrev State : Type 0
  State = Model input vault conversions

  abbrev Ready : State → Type 0
  Ready = IsReady input vault conversions

  abbrev on : Screen → State → State
  on = shown input vault conversions

  abbrev Showable : vault.State → RecordDto → Type 0
  Showable = IsShowable input vault conversions

  current_totp-Returns :
      (now : Time) (v : vault.State) (dto : RecordDto)
      → Laws vault
      → Showable v dto
      → eqb dto.data_type data_type_otp ≡ true
      → Returns (vault.current_totp now dto.id v)
  current_totp-Returns now v dto laws showable t =
      elim (Result-cases (vault.get dto.id (new_payload_target data_type_otp) v)) [
        | inr (x, e) ↦ laws.current_totp-refused now dto.id x v e
        | inl ((meta, p), e) ↦
            let (q, same) =
              kind-otp p (laws.get-kind dto.id meta (new_payload_target data_type_otp) p v e) in
            let e' = e ∙ ap (λ (x : Payload). ok (meta, x)) same in
            laws.current_totp-returns now dto.id meta q v e' (showable meta q t e')
      ]

  -- refreshOTP shows a code or none, and changes nothing else.
  pub refresh_otp-Returns :
      (now : Time) (v : vault.State) (m : State)
      → Laws vault
      → ((dto : RecordDto) → get_elem? m.records m.cursor ≡ some dto → Showable v dto)
      → m.cursor ≤ length m.records - 1
      → (code : String) × (refresh_otp input vault conversions now v m
          ≡ some (record m { otp_code = code }))
  unfolding refresh_otp show_otp
  refresh_otp-Returns now v m laws showable h =
      let Coded =
        λ (o : Option State). (code : String) × (o ≡ some (record m { otp_code = code })) in
      empty-cases Coded m.records _ _ (m.otp_code, refl)
        λ some_left.
          let (dto, e) = get_elem?-Returns m.records m.cursor (omega arith) in
          rw e (
            if-cases Coded (eqb dto.data_type data_type_otp) _ _
              (λ t.
                let (r, g) = current_totp-Returns now v dto laws (showable dto e) t in
                elim (Result-cases r) [
                  | inl (code, f) ↦ (code, rw (g, f) refl)
                  | inr (x, f) ↦ ("", rw (g, f) refl)
                ])
              (λ f. ("", refl)))

  -- openDetail shows the record or an error; neither changes what is below.
  pub open_detail-IsReady :
      (now : Time) (v : vault.State) (dto : RecordDto) (m : State)
      → Laws vault
      → ((d : RecordDto) → get_elem? m.records m.cursor ≡ some d → Showable v d)
      → m.cursor ≤ length m.records - 1
      → (m' : State) × (open_detail input vault conversions now v dto m ≡ some m')
        × (Ready (on detail m) → Ready (on detail m'))
  unfolding open_detail
  open_detail-IsReady now v dto m laws showable h =
      elim (Result-cases (vault.get dto.id (new_payload_target dto.data_type) v)) [
        | inr (x, e) ↦ (record m { error = some (failure x) }, rw (e, open_detail) refl, λ r. r)
        | inl ((meta, p), e) ↦
            let m1 : State = record m {
              error = none;
              detail_meta = meta;
              detail_payload = vault.marshal_indent p;
            } in
            let (code, f) = refresh_otp-Returns now v m1 laws showable h in
            (record m1 { otp_code = code }, rw (e, open_detail) f, λ r. r)
      ]

  -- startEdit stays where it is, with an error, or opens the form of the record.
  pub start_edit-IsReady :
      (v : vault.State) (dto : RecordDto) (m : State)
      → Laws vault
      → Ready (on detail m)
      → (m' : State) × (start_edit input vault conversions v dto (on detail m) ≡ some m') × Ready m'
  unfolding start_edit populate_edit_fields
  start_edit-IsReady v dto m laws ready =
      elim (Result-cases (vault.get dto.id (new_payload_target dto.data_type) v)) [
        | inr (x, e) ↦
            (record (on detail m) { error = some (failure x) }, rw (e, start_edit) refl, ready)
        | inl ((meta, p), e) ↦
            let t = dto.data_type in
            let built = build_add_form_fields input t in
            let fits =
              length-edit_values input conversions t p
                (laws.get-kind dto.id meta (new_payload_target t) p v e) in
            let (fs, f, same) =
              set_values-some input (some meta ∷ edit_values input conversions p) built
                (omega arith) in
            let (gs, g, same') = change_at-some input 0 input.focus fs (omega arith) in
            (
              record m {
                error = none;
                editing_id = dto.id;
                add_data_type = t;
                add_fields = gs;
                add_focus = 0;
                screen = add_form;
              },
              rw (e, start_edit, f, g) refl,
              (ready.0, (ready.1.0, ready.1.1, (omega arith, same' ∙ same))),
            )
      ]
