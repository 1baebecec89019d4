-- ===== src/Client/Tui/Faults.antt =====
-- Where the interface goes wrong.
use voldepass.Prelude.{
  ℕ, zero, suc, ◌≤◌, ◌<◌, ◌≡◌, refl, ◌∙◌, ap, Bool, Option, none, some, List, [], ◌∷◌, length,
  if◌then◌else◌, arith, eq_iff, false, true, eqb, get_elem?, not, ◌==◌,
}
use voldepass.Domain.{Bytes, Time, data_type_otp, RecordDto, ok, err, Error}
use voldepass.Client.Tui.Input.{◌>>=◌, TextInput, Conversions, enter}
use voldepass.Client.Tui.Form.{Payload, new_payload_target, build_add_payload}
use voldepass.Client.Tui.Model.{
  Vault, listing, detail, failure, idle, tick, Model, refresh_records, refresh_otp, show_otp,
  open_detail,
}
use voldepass.Client.Tui.Editing.{submitted, saved_as, save_form, submit_add_form}
use voldepass.Client.Tui.Update.{enter_list, update_list}

module _ (input : TextInput) (vault : Vault) (conversions : Conversions) where
  abbrev State : Type 0
  State = Model input vault conversions

  get_elem?-none {ℓ} : {A : Type ℓ} (xs : List A) (n : ℕ) → length xs ≤ n → get_elem? xs n ≡ none
  get_elem?-none [] n h = refl
  get_elem?-none (x ∷ xs) zero h = absurd (omega arith)
  get_elem?-none (x ∷ xs) (suc n) h = get_elem?-none xs n (omega arith)

  nonempty {ℓ κ} :
      {A : Type ℓ} {B : Type κ} (xs : List A) (a b : B)
      → 0 < length xs
      → (elim xs [ [] ↦ a | _ ∷ _ ↦ b ]) ≡ b
  nonempty [] a b h = absurd (omega arith)
  nonempty (x ∷ xs) a b h = refl

  bind-some {ℓ κ} :
      {A : Type ℓ} {B : Type κ} (o : Option A) (a : A) (f : A → Option B)
      → o ≡ some a
      → (o >>= f) ≡ f a
  bind-some o a f e = ap (λ x. x >>= f) e

  bind-none {ℓ κ} :
      {A : Type ℓ} {B : Type κ} (o : Option A) (f : A → Option B) → o ≡ none → (o >>= f) ≡ none
  bind-none o f e = ap (λ x. x >>= f) e

  if-false {ℓ} : {A : Type ℓ} (b : Bool) (x y : A) → b ≡ false → (if b then x else y) ≡ y
  if-false b x y e = rw e refl

  get_elem?-length {ℓ} :
      {A : Type ℓ} (xs : List A) (n : ℕ) (x : A) → get_elem? xs n ≡ some x → 0 < length xs
  get_elem?-length [] n x h = absurd (ground arith)
  get_elem?-length (y ∷ ys) n x h = omega arith

  -- A form that can be read and is saved, when the list that the store then has is not empty and ends
  -- before the cursor, leads back to the list with the cursor behind its end, if no deletion is being
  -- asked for: Enter then makes the program panic. The store can have lost records since the list was
  -- read, by a synchronisation that runs while the form is open.
  pub submit_add_form-panics :
      (now later : Time) (meta : Bytes) (p : Payload) (v : vault.State) (m : State)
      → build_add_payload input conversions m.add_data_type m.add_fields ≡ some (ok (meta, p))
      → m.opened ≡ some v
      → (saved_as input vault conversions now meta p m v).0 ≡ ok tt
      → m.confirm_delete_id ≡ ""
      → let left = vault.list (saved_as input vault conversions now meta p m v).1 in
        0 < length left
        → length left ≤ m.cursor
        → (m' : State) × (submit_add_form input vault conversions now m ≡ some (m', idle))
          × (m'.screen ≡ listing)
          × (update_list input vault conversions later enter m' ≡ none)
  unfolding submit_add_form save_form submitted refresh_records update_list enter_list
  submit_add_form-panics now later meta p v m built opened saved unasked some_left short =
      let v' = (saved_as input vault conversions now meta p m v).1 in
      let m' = submitted input vault conversions v' m in
      let unquestioned : not (m.confirm_delete_id == "") ≡ false =
        ground (arith, eq_iff m.confirm_delete_id "") in
      (
        m',
        bind-some _ _ _ built ∙ bind-some m.opened v _ opened ∙ rw saved refl,
        refl,
        if-false _ _ _ unquestioned
            ∙ nonempty (vault.list v') _ _ some_left
            ∙ bind-none _ _ (get_elem?-none (vault.list v') m.cursor short),
      )

  -- Enter on a record of an OTP whose code makes the vault panic ends the program in a panic.
  pub enter_list-code_panics :
      (now : Time) (dto : RecordDto) (meta : Bytes) (p : Payload) (v : vault.State) (m : State)
      → get_elem? m.records m.cursor ≡ some dto
      → m.opened ≡ some v
      → vault.get dto.id (new_payload_target dto.data_type) v ≡ ok (meta, p)
      → eqb dto.data_type data_type_otp ≡ true
      → vault.current_totp now dto.id v ≡ none
      → enter_list input vault conversions now m ≡ none
  unfolding enter_list open_detail refresh_otp show_otp
  enter_list-code_panics now dto meta p v m at opened got t panics =
      let some_left = get_elem?-length m.records m.cursor dto at in
      let shown : State = record m {
        error = none;
        detail_meta = meta;
        detail_payload = vault.marshal_indent p;
      } in
      let if_panics : show_otp input vault conversions now v dto shown ≡ none =
        rw (show_otp, t, panics) refl in
      let no_code : refresh_otp input vault conversions now v shown ≡ none =
        nonempty m.records _ _ some_left ∙ bind-some _ dto _ at ∙ if_panics in
      let no_detail : open_detail input vault conversions now v dto m ≡ none =
        rw (open_detail, got) no_code in
      nonempty m.records _ _ some_left
      ∙ bind-some _ _ _ at
      ∙ bind-some m.opened v _ opened
      ∙ bind-none _ _ no_detail

  -- Enter on a record that the vault refuses to give shows the screen of a record with the label, the
  -- payload and the code that were there before: those of the record shown last.
  pub enter_list-stale :
      (now : Time) (dto : RecordDto) (e : Error) (v : vault.State) (m : State)
      → get_elem? m.records m.cursor ≡ some dto
      → m.opened ≡ some v
      → vault.get dto.id (new_payload_target dto.data_type) v ≡ err e
      → (m' : State) × (enter_list input vault conversions now m ≡ some (m', tick))
        × (m'.screen ≡ detail)
        × (m'.detail_meta ≡ m.detail_meta)
        × (m'.detail_payload ≡ m.detail_payload)
        × (m'.otp_code ≡ m.otp_code)
  unfolding enter_list open_detail
  enter_list-stale now dto e v m at opened refused = (
    record m { error = some (failure e); screen = detail },
    nonempty m.records _ _ (get_elem?-length m.records m.cursor dto at)
        ∙ bind-some _ _ _ at
        ∙ bind-some m.opened v _ opened
        ∙ rw (open_detail, refused) refl,
    refl,
    refl,
    refl,
    refl,
  )
