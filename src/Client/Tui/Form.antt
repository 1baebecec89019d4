-- ===== src/Client/Tui/Form.antt =====
-- internal/client/tui/model.go, the form of a record, and the payloads of internal/domain/payload.go.
-- A form field is indexed as a slice is: out of range, the program panics, which is `none` here.
pub mod RoundTrip
use mathlib.Core.Option
use voldepass.Prelude.{
  ℕ, zero, suc, ◌+◌, ◌≡◌, ◌≢◌, String, Bool, Option, none, some, List, [], ◌∷◌, ◌==◌, eqb, true,
  false, if◌then◌else◌,
}
use voldepass.Domain.{
  Bytes, DataType, data_type_credentials, data_type_text, data_type_binary, data_type_card,
  data_type_otp, Int64, int64_zero, Result, ok, err, Error, invalid_argument, internal,
}
use voldepass.Client.Tui.Input.{◌>>=◌, TextInput, Conversions}

-- OTPPayload
pub record OtpPayload : Type 0 where
  pub secret : Bytes
  pub issuer : Bytes
  pub account : Bytes
  pub algorithm : Bytes
  pub digits : Int64
  pub period : Int64

-- payload.go, and the map[string]any that the interface decodes other records into.
pub data Payload : Type 0 where
  credentials : (login password : Bytes) → Payload
  content : Bytes → Payload
  binary : (data_bytes filename : Bytes) → Payload
  card : (number holder expiry cvv : Bytes) → Payload
  otp : OtpPayload → Payload
  other : Payload

-- newPayloadTarget
unfoldable pub new_payload_target : DataType → Payload
new_payload_target t =
    if eqb t data_type_credentials
    then credentials [] []
    else if eqb t data_type_text
    then content []
    else if eqb t data_type_card
    then card [] [] [] []
    else if eqb t data_type_otp
    then otp (record {
      secret = [];
      issuer = [];
      account = [];
      algorithm = [];
      digits = int64_zero;
      period = int64_zero;
    })
    else if eqb t data_type_binary
    then binary [] []
    else other

module _ (input : TextInput) where
  -- addFormField
  pub record Field : Type 0 where
    pub label : String
    pub line : input.Line

  -- newAddFormField
  unfoldable pub new_add_form_field : String → String → Bool → Field
  new_add_form_field label placeholder secret =
      let line = input.with_placeholder placeholder input.new in
      record { label = label; line = if secret then input.as_password line else line }

  -- buildAddFormFields
  unfoldable pub build_add_form_fields : DataType → List Field
  build_add_form_fields t =
      new_add_form_field "meta (label)" "optional note" false
      ∷ (if eqb t data_type_credentials
          then new_add_form_field "login" "" false ∷ new_add_form_field "password" "" true ∷ []
          else if eqb t data_type_text
          then new_add_form_field "content" "" false ∷ []
          else if eqb t data_type_binary
          then new_add_form_field "data" "raw text, stored as bytes" false
            ∷ new_add_form_field "filename" "optional" false
            ∷ []
          else if eqb t data_type_card
          then new_add_form_field "number" "" false
            ∷ new_add_form_field "holder" "" false
            ∷ new_add_form_field "expiry" "MM/YY" false
            ∷ new_add_form_field "cvv" "" true
            ∷ []
          else if eqb t data_type_otp
          then new_add_form_field "secret" "base32" false
            ∷ new_add_form_field "issuer" "optional" false
            ∷ new_add_form_field "account" "optional" false
            ∷ new_add_form_field "algorithm" "SHA1/SHA256/SHA512 (default SHA1)" false
            ∷ new_add_form_field "digits" "default 6" false
            ∷ new_add_form_field "period" "default 30 (seconds)" false
            ∷ []
          else [])

  -- values[i].input.Value()
  unfoldable pub value_at : ℕ → List Field → Option Bytes
  value_at n [] = none
  value_at zero (f ∷ fs) = some (input.value f.line)
  value_at (suc n) (f ∷ fs) = value_at n fs

  -- m.addFields[i].input changed in place
  unfoldable pub change_at : ℕ → (input.Line → input.Line) → List Field → Option (List Field)
  change_at n f [] = none
  change_at zero f (x ∷ xs) = some (record x { line = f x.line } ∷ xs)
  change_at (suc n) f (x ∷ xs) = Option.map (◌∷◌ x) (change_at n f xs)

  -- SetValue on the fields in turn; `none` leaves a field as it is.
  unfoldable pub set_values : List (Option Bytes) → List Field → Option (List Field)
  set_values [] fs = some fs
  set_values (v ∷ vs) [] = none
  set_values (none ∷ vs) (f ∷ fs) = Option.map (◌∷◌ f) (set_values vs fs)
  set_values (some s ∷ vs) (f ∷ fs) =
      Option.map (◌∷◌ (record f { line = input.set_value s f.line })) (set_values vs fs)

  module _ (conversions : Conversions) where
    -- A number of the form, or its default when the field is empty.
    unfoldable pub number_or : Int64 → Bytes → Result Int64
    number_or default [] = ok default
    number_or default (b ∷ s) = conversions.atoi (b ∷ s)

    -- The OTP case of buildAddPayload.
    unfoldable pub build_otp : List Field → Option (Result Payload)
    unfolding value_at
    build_otp values = do
      digits_text ← value_at 4 values
      elim (number_or (int64_zero + 6) digits_text) [
        | err e ↦ some (err e)
        | ok digits ↦ do
          period_text ← value_at 5 values
          elim (number_or (int64_zero + 30) period_text) [
            | err e ↦ some (err e)
            | ok period ↦ do
              secret ← value_at 0 values
              issuer ← value_at 1 values
              account ← value_at 2 values
              algorithm ← value_at 3 values
              some (
                  ok (
                    otp (record {
                      secret = secret;
                      issuer = issuer;
                      account = account;
                      algorithm = algorithm;
                      digits = digits;
                      period = period;
                    })))
          ]
      ]

    unfoldable pub build_credentials : List Field → Option (Result Payload)
    unfolding value_at
    build_credentials values = do
      login ← value_at 0 values
      password ← value_at 1 values
      some (ok (credentials login password))

    unfoldable pub build_text : List Field → Option (Result Payload)
    unfolding value_at
    build_text values = do s ← value_at 0 values; some (ok (content s))

    unfoldable pub build_binary : List Field → Option (Result Payload)
    unfolding value_at
    build_binary values = do
      s ← value_at 0 values
      filename ← value_at 1 values
      some (ok (binary s filename))

    unfoldable pub build_card : List Field → Option (Result Payload)
    unfolding value_at
    build_card values = do
      number ← value_at 0 values
      holder ← value_at 1 values
      expiry ← value_at 2 values
      cvv ← value_at 3 values
      some (ok (card number holder expiry cvv))

    -- The payload that buildAddPayload makes of the fields after the first.
    unfoldable pub build_values : DataType → List Field → Option (Result Payload)
    unfolding build_credentials build_text build_binary build_card build_otp
    build_values t values =
        if eqb t data_type_credentials
        then build_credentials values
        else if eqb t data_type_text
        then build_text values
        else if eqb t data_type_binary
        then build_binary values
        else if eqb t data_type_card
        then build_card values
        else if eqb t data_type_otp
        then build_otp values
        else some (err invalid_argument)

    -- buildAddPayload
    unfoldable pub build_add_payload : DataType → List Field → Option (Result (Bytes × Payload))
    unfolding build_values
    build_add_payload t [] = none
    build_add_payload t (meta ∷ values) =
        Option.map
          (λ (r : Result Payload). elim r [ err e ↦ err e | ok p ↦ ok (input.value meta.line, p) ])
          (build_values t values)

    -- A number of the form that zero leaves empty.
    abbrev pub number_text : Int64 → Option Bytes
    number_text n = if eqb n int64_zero then none else some (conversions.itoa n)

    -- What populateEditFields writes after the label.
    unfoldable pub edit_values : Payload → List (Option Bytes)
    edit_values (credentials login password) = some login ∷ some password ∷ []
    edit_values (content s) = some s ∷ []
    edit_values (binary data_bytes filename) = some data_bytes ∷ some filename ∷ []
    edit_values (card number holder expiry cvv) =
        some number ∷ some holder ∷ some expiry ∷ some cvv ∷ []
    edit_values (otp p) =
        some p.secret
        ∷ some p.issuer
        ∷ some p.account
        ∷ some p.algorithm
        ∷ number_text p.digits
        ∷ number_text p.period
        ∷ []
    edit_values other = []

    -- populateEditFields
    unfoldable pub populate_edit_fields : List Field → Bytes → Payload → Option (List Field)
    unfolding set_values edit_values
    populate_edit_fields fields meta target = set_values (some meta ∷ edit_values target) fields
