-- ===== src/Client/Tui/Form/RoundTrip.antt =====
-- Editing a record and saving the form unchanged.
use mathlib.Core.Option
use voldepass.Prelude.{
  ◌+◌, ◌≡◌, ◌≢◌, refl, ◌∙◌, ap, String, Bool, Option, none, some, [], ◌∷◌, eqb, if◌then◌else◌, All,
  arith, Bool-cases, List-cases, inl, inr, true, false,
}
use voldepass.Domain.{
  Bytes, DataType, data_type_credentials, data_type_text, data_type_binary, data_type_card,
  data_type_otp, Int64, int64_zero, ok,
}
use voldepass.Client.Tui.Input.{◌>>=◌, TextInput, Conversions}
use voldepass.Client.Tui.Form.{
  Payload, credentials, content, binary, card, otp, other, Field, new_add_form_field,
  build_add_form_fields, value_at, set_values, number_or, build_otp, build_credentials, build_text,
  build_binary, build_card, build_values, build_add_payload, number_text, edit_values,
  populate_edit_fields,
}

-- The type of a record that holds the payload.
abbrev pub type_of : Payload → DataType
type_of (credentials login password) = data_type_credentials
type_of (content s) = data_type_text
type_of (binary data_bytes filename) = data_type_binary
type_of (card number holder expiry cvv) = data_type_card
type_of (otp p) = data_type_otp
type_of other = 0

-- What the form makes of a payload: an unset number of digits or period gets its default.
abbrev pub with_defaults : Payload → Payload
with_defaults (otp p) = otp (record p {
  digits = if eqb p.digits int64_zero then int64_zero + 6 else p.digits;
  period = if eqb p.period int64_zero then int64_zero + 30 else p.period;
})
with_defaults p = p

module _ (input : TextInput) (conversions : Conversions) where
  -- The texts that the form shows.
  abbrev pub IsShown : Option Bytes → Type 0
  IsShown none = Unit
  IsShown (some s) = input.IsPlain s

  new_add_form_field-value :
      (label placeholder : String) (secret : Bool)
      → input.value (new_add_form_field input label placeholder secret).line ≡ []
  unfolding new_add_form_field
  new_add_form_field-value label placeholder true =
      input.value-password _ ∙ input.value-placeholder placeholder _ ∙ input.value-new
  new_add_form_field-value label placeholder false =
      input.value-placeholder placeholder _ ∙ input.value-new

  abbrev line : String → String → Bool → input.Line
  line label placeholder secret = (new_add_form_field input label placeholder secret).line

  -- A field that was filled with a text.
  abbrev showing : String → String → Bytes → Field input
  showing label placeholder s =
      let f = new_add_form_field input label placeholder false in
      record f { line = input.set_value s f.line }

  kept : (s : Bytes) (l : input.Line) → input.IsPlain s → input.value (input.set_value s l) ≡ s
  kept = input.value-set_value

  -- The field of a number.
  abbrev filled : Int64 → Field input → Field input
  filled n f = record f {
    line = if eqb n int64_zero then f.line else input.set_value (conversions.itoa n) f.line;
  }

  abbrev set_to : Int64 → Int64 → Int64
  set_to default n = if eqb n int64_zero then default else n

  set_values-numbers :
      (m n : Int64) (f g : Field input)
      → set_values input
          (number_text input conversions m ∷ number_text input conversions n ∷ [])
          (f ∷ g ∷ [])
        ≡ some (filled m f ∷ filled n g ∷ [])
  unfolding set_values
  set_values-numbers m n f g = elim (Bool-cases (eqb m int64_zero)) [
    | inl a ↦ elim (Bool-cases (eqb n int64_zero)) [
      | inl b ↦ rw (a, b) refl
      | inr b ↦ rw (a, b) refl
    ]
    | inr a ↦ elim (Bool-cases (eqb n int64_zero)) [
      | inl b ↦ rw (a, b) refl
      | inr b ↦ rw (a, b) refl
    ]
  ]

  number_or-filled :
      (default n : Int64) (f : Field input)
      → input.value f.line ≡ []
      → IsShown (number_text input conversions n)
      → number_or input conversions default (input.value (filled n f).line) ≡ ok (set_to default n)
  unfolding number_or
  number_or-filled default n f empty shown = elim (Bool-cases (eqb n int64_zero)) [
    | inl a ↦ rw (a, empty) refl
    | inr a ↦
        let back = conversions.atoi-itoa n in
        let same = kept (conversions.itoa n) f.line (rw a at shown) in
        let some_text = conversions.itoa-ne n in
        elim (List-cases (conversions.itoa n)) [
          | inl e ↦ absurd (some_text e)
          | inr (b, bs, e) ↦ ground arith
        ]
  ]

  build_otp-filled :
      (m n : Int64) (a b c d f g : Field input)
      → input.value f.line ≡ []
      → input.value g.line ≡ []
      → IsShown (number_text input conversions m)
      → IsShown (number_text input conversions n)
      → build_otp input conversions (a ∷ b ∷ c ∷ d ∷ filled m f ∷ filled n g ∷ [])
        ≡ some (
            ok (
              otp (record {
                secret = input.value a.line;
                issuer = input.value b.line;
                account = input.value c.line;
                algorithm = input.value d.line;
                digits = set_to (int64_zero + 6) m;
                period = set_to (int64_zero + 30) n;
              })))
  unfolding build_otp value_at
  build_otp-filled m n a b c d f g no_digits no_period shown shown' = ground (
    arith,
    number_or-filled (int64_zero + 6) m f no_digits shown,
    number_or-filled (int64_zero + 30) n g no_period shown',
  )

  -- The form that is opened for a record, saved unchanged, gives the label and the payload of the
  -- record, where an OTP's number of digits and its period have become 6 and 30 if they were 0. The
  -- label and the payload's texts have to be ones that a line keeps as they are, and the type one of
  -- the five.
  pub populate-build :
      (meta : Bytes) (p : Payload)
      → p ≢ other
      → All IsShown (some meta ∷ edit_values input conversions p)
      → (populate_edit_fields input conversions (build_add_form_fields input (type_of p)) meta p
          >>= build_add_payload input conversions (type_of p))
        ≡ some (ok (meta, with_defaults p))
  unfolding populate_edit_fields build_add_form_fields build_add_payload build_values
      build_credentials build_text build_binary build_card set_values edit_values value_at build_otp
  populate-build meta (credentials login password) known (m, (a, (b, _))) = λ i. some (
      ok (
        kept meta (line "meta (label)" "optional note" false) m i,
        credentials (kept login (line "login" "" false) a i)
            (kept password (line "password" "" true) b i),
      ))
  populate-build meta (content s) known (m, (a, _)) = λ i. some (
      ok (
        kept meta (line "meta (label)" "optional note" false) m i,
        content (kept s (line "content" "" false) a i),
      ))
  populate-build meta (binary data_bytes filename) known (m, (a, (b, _))) = λ i. some (
      ok (
        kept meta (line "meta (label)" "optional note" false) m i,
        binary (kept data_bytes (line "data" "raw text, stored as bytes" false) a i)
            (kept filename (line "filename" "optional" false) b i),
      ))
  populate-build meta (card number holder expiry cvv) known (m, (a, (b, (c, (d, _))))) = λ i. some (
      ok (
        kept meta (line "meta (label)" "optional note" false) m i,
        card (kept number (line "number" "" false) a i) (kept holder (line "holder" "" false) b i)
            (kept expiry (line "expiry" "MM/YY" false) c i) (kept cvv (line "cvv" "" true) d i),
      ))
  populate-build meta (otp p) known (m, (a, (b, (c, (d, (digits, (period, _))))))) =
      let f = new_add_form_field input "digits" "default 6" false in
      let g = new_add_form_field input "period" "default 30 (seconds)" false in
      let written =
        build_otp-filled p.digits p.period (showing "secret" "base32" p.secret)
          (showing "issuer" "optional" p.issuer) (showing "account" "optional" p.account)
          (showing "algorithm" "SHA1/SHA256/SHA512 (default SHA1)" p.algorithm) f g
          (new_add_form_field-value _ _ false) (new_add_form_field-value _ _ false) digits period in
      rw (set_values-numbers p.digits p.period f g) (
        ap (Option.map _) written ∙ λ i. some (
          ok (
            kept meta (line "meta (label)" "optional note" false) m i,
            otp (record {
              secret = kept p.secret (line "secret" "base32" false) a i;
              issuer = kept p.issuer (line "issuer" "optional" false) b i;
              account = kept p.account (line "account" "optional" false) c i;
              algorithm =
                  kept p.algorithm (line "algorithm" "SHA1/SHA256/SHA512 (default SHA1)" false) d i;
              digits = set_to (int64_zero + 6) p.digits;
              period = set_to (int64_zero + 30) p.period;
            }),
          )))
  populate-build meta other known shown = absurd (known refl)
