-- ===== src/Client/Tui/Deletion.antt =====
-- What is deleted from the list, and when.
use voldepass.Prelude.{
  ◌+◌, ◌≡◌, refl, String, Option, none, some, length, eqb, arith, eq_iff, inl, inr, false, ◌⊎◌,
  if-cases, Option-cases, get_elem?, ltb, not, ◌==◌, ◌||◌,
}
use voldepass.Domain.{Time, data_type_otp, RecordDto, Result, ok, err, Result-cases}
use voldepass.Client.Tui.Input.{◌>>=◌, TextInput, Conversions, Key}
use voldepass.Client.Tui.Form.{new_payload_target}
use voldepass.Client.Tui.Model.{
  Vault, detail, quit, tick, key_string, Model, Updated, open_detail, refresh_otp, show_otp,
}
use voldepass.Client.Tui.Safe.Ready.{empty-cases}
use voldepass.Client.Tui.Update.{
  leave, update_delete_confirm, enter_list, ask_delete, start_sync, update_list,
}

module _ (input : TextInput) (vault : Vault) (conversions : Conversions) where
  abbrev State : Type 0
  State = Model input vault conversions

  -- The store stays as it is, unless the program ends.
  abbrev pub Keeps : State → Updated input vault conversions → Type 0
  Keeps m none = Unit
  Keeps m (some (m', c)) = (c ≡ quit) ⊎ (m'.opened ≡ m.opened)

  bind-Keeps {ℓ} :
      {A : Type ℓ} (m : State) (o : Option A) (f : A → Updated input vault conversions)
      → ((a : A) → Keeps m (f a))
      → Keeps m (o >>= f)
  bind-Keeps m none f h = tt
  bind-Keeps m (some a) f h = h a

  opened-cases :
      (m : State) (o : Option vault.State) (a : Updated input vault conversions)
      (f : vault.State → Updated input vault conversions)
      → Keeps m a
      → ((v : vault.State) → Keeps m (f v))
      → Keeps m (elim o [ none ↦ a | some v ↦ f v ])
  opened-cases m none a f h g = h
  opened-cases m (some v) a f h g = g v

  abbrev Same : State → Option State → Type 0
  Same m none = Unit
  Same m (some m') = m'.opened ≡ m.opened

  bind-Same :
      (m : State) (o : Option RecordDto) (f : RecordDto → Option State)
      → ((a : RecordDto) → Same m (f a))
      → Same m (o >>= f)
  bind-Same m none f h = tt
  bind-Same m (some a) f h = h a

  code-Same :
      (m m' : State) (o : Option (Result String))
      → m'.opened ≡ m.opened
      → Same m (elim o [
        | none ↦ none
        | some (err e) ↦ some (record m' { otp_code = "" })
        | some (ok code) ↦ some (record m' { otp_code = code })
      ])
  code-Same m m' none h = tt
  code-Same m m' (some (err e)) h = h
  code-Same m m' (some (ok code)) h = h

  open_detail-Same :
      (now : Time) (v : vault.State) (dto : RecordDto) (m : State)
      → Same m (open_detail input vault conversions now v dto m)
  unfolding open_detail refresh_otp show_otp
  open_detail-Same now v dto m =
      elim (Result-cases (vault.get dto.id (new_payload_target dto.data_type) v)) [
        | inr (x, e) ↦ rw (open_detail, e) refl
        | inl ((meta, p), e) ↦
            let m1 : State = record m {
              error = none;
              detail_meta = meta;
              detail_payload = vault.marshal_indent p;
            } in
            rw (open_detail, e)
              (empty-cases (Same m) m.records _ _ refl λ _.
                bind-Same m (get_elem? m.records m.cursor) _ λ d.
                  if-cases (Same m) (eqb d.data_type data_type_otp) _ _
                    (λ _. code-Same m m1 (vault.current_totp now d.id v) refl) (λ _. refl))
      ]

  shown_detail :
      (m : State) (o : Option State)
      → Same m o
      → Keeps m (o >>= λ m'. some (record m' { screen = detail }, tick))
  shown_detail m none h = tt
  shown_detail m (some m') h = inr h

  -- A key on the list leaves the store of the vault as it is, or ends the program: unless the
  -- question whether to delete a record stands, and the key is y.
  pub update_list-Keeps :
      (now : Time) (k : Key) (m : State)
      → (m.confirm_delete_id ≡ "") ⊎ ((key_string k == "y") ≡ false)
      → Keeps m (update_list input vault conversions now k m)
  unfolding update_list update_delete_confirm start_sync ask_delete enter_list leave
  update_list-Keeps now k m safe =
      let s = key_string k in
      let P = Keeps m in
      if-cases P (not (m.confirm_delete_id == "")) _ _
        (λ e. elim safe [
          | inl none_asked ↦ absurd (ground (arith, eq_iff m.confirm_delete_id "", e))
          | inr other ↦ rw (update_delete_confirm, other) (inr refl)
        ])
        λ _.
          if-cases P (s == "ctrl+c" || s == "q") _ _
            (λ _. elim (Option-cases m.opened) [
              | inl e ↦ rw (leave, e) (inl refl)
              | inr (v, e) ↦ rw (leave, e) (inl refl)
            ])
            λ _.
              if-cases P (s == "up" || s == "k") _ _ (λ _. inr refl)
                λ _.
                  if-cases P (s == "down" || s == "j") _ _
                    (λ _. inr (
                      if-cases (λ (x : State). x.opened ≡ m.opened)
                        (ltb (m.cursor + 1) (length m.records)) _ m (λ e. refl) (λ _. refl)))
                    λ _.
                      if-cases P (s == "s") _ _
                        (λ _.
                          if-cases P m.syncing _ _ (λ _. inr refl)
                            λ _. opened-cases m m.opened _ _ (inr refl) (λ v. inr refl))
                        λ _.
                          if-cases P (s == "enter") _ _
                            (λ _. empty-cases P m.records _ _ (inr refl) λ _.
                              bind-Keeps m (get_elem? m.records m.cursor) _ λ dto.
                                bind-Keeps m m.opened _
                                  λ v. shown_detail m _ (open_detail-Same now v dto m))
                            λ _.
                              if-cases P (s == "n") _ _ (λ _. inr refl)
                                λ _.
                                  if-cases P (s == "d") _ _
                                    (λ _. empty-cases P m.records _ _ (inr refl) λ _.
                                      bind-Keeps m (get_elem? m.records m.cursor) _ λ dto.
                                        bind-Keeps m (get_elem? m.record_labels m.cursor) _
                                          λ name. inr refl)
                                    (λ _. inr refl)
