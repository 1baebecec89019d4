-- ===== src/Client/Tests/Screens.antt =====
-- Runs of the terminal interface: a vault with one card, in memory.
use voldepass.Prelude.{
  ℕ, ◌+◌, ◌≡◌, ◌≢◌, inl, inr, refl, String, Option, none, some, List, [], ◌∷◌, map, ◌==◌, eqb,
  eqb_iff, ap, ltb, Bool-cases, arith, if◌then◌else◌,
}
use voldepass.Domain.{
  Bytes, RecordDto, data_type_card, data_type_otp, int64_zero, Result, ok, err, not_found, internal,
}
use voldepass.Client.Vault.{blank}
use voldepass.Client.Tui.Input.{◌>>=◌, TextInput, Conversions, enter, text}
use voldepass.Client.Tui.Form.{
  Payload, OtpPayload, new_payload_target, card, otp, build_add_form_fields, build_add_payload,
  edit_values, populate_edit_fields,
}
use voldepass.Client.Tui.Form.RoundTrip.{with_defaults, populate-build}
use voldepass.Client.Tui.Model.{Vault, Model, new_model, key, listing}
use voldepass.Client.Tui.Safe.Fields.{kind}
use voldepass.Client.Tui.Safe.Ready.{Laws, HasDigits, IsReady, GoesOn, CanShow}
use voldepass.Client.Tui.Safe.Update.{update-GoesOn}
use voldepass.Client.Tui.Update.{update, update_list}
use voldepass.Client.Tui.Deletion.{Keeps, update_list-Keeps}

-- A line that keeps any text.
abbrev line : TextInput
line = record {
  Line = Bytes;
  new = [];
  with_placeholder = λ s l. l;
  as_password = λ l. l;
  focus = λ l. l;
  blur = λ l. l;
  update = λ k l. l;
  value = λ l. l;
  set_value = λ s l. s;
  IsPlain = λ s. Unit;
  value-set_value = λ s l h. refl;
  value-placeholder = λ s l. refl;
  value-password = λ l. refl;
  value-new = refl;
}

abbrev atoi : Bytes → Result ℕ
atoi (n ∷ []) = ok n
atoi s = err internal

digit-ne : (n : ℕ) → (n ∷ []) ≢ []
digit-ne n e = absurd (ground arith)

-- A number is written as one digit.
abbrev digits : Conversions
digits = record { atoi = atoi; itoa = λ n. n ∷ []; atoi-itoa = λ n. refl; itoa-ne = digit-ne }

abbrev Entries : Type 0
Entries = List (RecordDto × (Bytes × Payload))

abbrev find : String → Entries → Option (Bytes × Payload)
find id [] = none
find id ((dto, x) ∷ v) = if dto.id == id then some x else find id v

abbrev without : String → Entries → Entries
without id [] = []
without id ((dto, x) ∷ v) =
    let rest = without id v in if dto.id == id then rest else (dto, x) ∷ rest

abbrev decoded : Payload → Option (Bytes × Payload) → Result (Bytes × Payload)
decoded target none = err not_found
decoded target (some (meta, p)) = if eqb (kind p) (kind target) then ok (meta, p) else err internal

decoded-kind :
    (target p : Payload) (meta : Bytes) (o : Option (Bytes × Payload))
    → decoded target o ≡ ok (meta, p)
    → kind p ≡ kind target
decoded-kind target p meta none h = absurd (ground arith)
decoded-kind target p meta (some (m, q)) h = elim (Bool-cases (eqb (kind q) (kind target))) [
  | inl t ↦ ground (arith, eqb_iff (kind q) (kind target))
  | inr f ↦ absurd (ground arith)
]

-- The code of what Get gives: a negative number of digits panics.
abbrev code_of : Result (Bytes × Payload) → Option (Result String)
code_of (err e) = some (err e)
code_of (ok (meta, otp p)) = if ltb p.digits int64_zero then none else some (ok "94287082")
code_of (ok (meta, p)) = some (err internal)

code_of-some :
    (r : Result (Bytes × Payload)) (meta : Bytes) (p : OtpPayload)
    → r ≡ ok (meta, otp p)
    → HasDigits p
    → (code : Result String) × (code_of r ≡ some code)
code_of-some r meta p e h = (ok "94287082", rw e (ground (arith, h)))

abbrev memory : Vault
memory = record {
  State = Entries;
  list = map (λ (e : RecordDto × (Bytes × Payload)). e.0);
  get_meta = λ id v. ok [];
  get = λ id target v. decoded target (find id v);
  create = λ now t meta p v. (ok tt, (blank "new" t, (meta, p)) ∷ v);
  update = λ now id meta p v. (ok tt, v);
  delete = λ now id v. (ok tt, without id v);
  current_totp = λ now id v. code_of (decoded (new_payload_target data_type_otp) (find id v));
  last_sync_at = λ v. 0;
  close = λ v. v;
  print_id = λ t id. id;
  print_meta = λ t meta. "";
  marshal_indent = λ p. "";
}

memory-Laws : Laws memory
memory-Laws = record {
  get-kind = λ id meta target p v h. decoded-kind target p meta (find id v) h;
  create-length = λ now t meta p v. omega arith;
  update-length = λ now id meta p v. omega arith;
  delete-refused = λ now id v h. absurd (h refl);
  current_totp-returns = λ now id meta p v e h. code_of-some _ meta p e h;
  current_totp-refused = λ now id e v h. (err e, rw h refl);
}

abbrev gold : Payload
gold = card (4 ∷ 2 ∷ []) (7 ∷ []) (1 ∷ []) (9 ∷ [])

abbrev wallet : Entries
wallet = (blank "a" data_type_card, ([], gold)) ∷ []

-- The list with the card.
abbrev at_list : Model line memory digits
at_list = record (new_model line memory digits) {
  screen = listing;
  opened = some wallet;
  records = blank "a" data_type_card ∷ [];
  record_labels = "a" ∷ [];
}

at_list-IsReady : IsReady line memory digits at_list
unfolding new_model
at_list-IsReady = ((omega arith, refl, omega arith), (omega arith, refl))

-- A secret with eight digits and no period.
abbrev secret : Payload
secret = otp (record {
  secret = 5 ∷ [];
  issuer = [];
  account = [];
  algorithm = [];
  digits = int64_zero + 8;
  period = int64_zero;
})

abbrev codes : Entries
codes = (blank "c" data_type_otp, ([], secret)) ∷ []

-- The list with the secret.
abbrev at_codes : Model line memory digits
at_codes = record at_list {
  opened = some codes;
  records = blank "c" data_type_otp ∷ [];
  record_labels = "c" ∷ [];
}

at_codes-IsReady : IsReady line memory digits at_codes
unfolding new_model
at_codes-IsReady = ((omega arith, refl, omega arith), (omega arith, refl))

abbrev digits_in : Result (Bytes × Payload) → ℕ
digits_in (ok (meta, otp p)) = p.digits
digits_in r = 0

eight :
    (v : Entries) (dto : RecordDto)
    → v ≡ codes
    → dto ≡ blank "c" data_type_otp
    → digits_in (decoded (new_payload_target data_type_otp) (find dto.id v)) ≡ int64_zero + 8
unfolding new_payload_target
eight v dto e f = rw (e, f) refl

at_codes-CanShow : CanShow line memory digits at_codes
unfolding new_model
at_codes-CanShow v dto there at meta p t got =
    let read = ap digits_in got in
    let held = eight v dto (ground arith) (ground arith) in (ground arith, ground arith)

update-GoesOn_example : GoesOn line memory digits (update line memory digits 0 (key enter) at_codes)
unfolding new_model
update-GoesOn_example =
    update-GoesOn line memory digits 0 (key enter) at_codes memory-Laws at_codes-IsReady tt
      at_codes-CanShow

populate-build_example :
    (populate_edit_fields line digits (build_add_form_fields line data_type_otp) (3 ∷ []) secret
      >>= build_add_payload line digits data_type_otp)
    ≡ some (ok (3 ∷ [], with_defaults secret))
unfolding edit_values
populate-build_example =
    populate-build line digits (3 ∷ []) secret (λ e. absurd (ground arith))
      (tt, (tt, (tt, (tt, (tt, (tt, (tt, tt)))))))

update_list-Keeps_example :
    Keeps line memory digits at_list (update_list line memory digits 0 (text "d") at_list)
unfolding new_model
update_list-Keeps_example = update_list-Keeps line memory digits 0 (text "d") at_list (inl refl)
