-- ===== src/Client/Tui/Safe/Fields.antt =====
-- The forms have the fields that are read and written.
use voldepass.Prelude.{
  ℕ, zero, suc, ◌+◌, ◌≤◌, ◌<◌, ◌≡◌, refl, sym, ap, Option, none, some, List, [], ◌∷◌, length, eqb,
  arith, if-cases,
}
use voldepass.Domain.{
  Bytes, DataType, data_type_credentials, data_type_text, data_type_binary, data_type_card,
  data_type_otp, int64_zero, Result, ok, err,
}
use voldepass.Client.Tui.Input.{◌>>=◌, TextInput, Conversions}
use voldepass.Client.Tui.Form.{
  Payload, OtpPayload, credentials, content, binary, card, otp, other, Field, build_add_form_fields,
  value_at, change_at, set_values, number_or, build_otp, build_credentials, build_text,
  build_binary, build_card, build_values, build_add_payload, edit_values, new_payload_target,
}

-- The constructor of a payload.
abbrev pub kind : Payload → ℕ
kind (credentials login password) = 1
kind (content s) = 2
kind (binary data_bytes filename) = 3
kind (card number holder expiry cvv) = 4
kind (otp p) = 5
kind other = 0

-- A payload of the kind of an OTP.
pub kind-otp :
    (p : Payload)
    → kind p ≡ kind (new_payload_target data_type_otp)
    → (q : OtpPayload) × (p ≡ otp q)
unfolding new_payload_target
kind-otp (credentials l password) h = absurd (omega arith)
kind-otp (content s) h = absurd (omega arith)
kind-otp (binary data_bytes filename) h = absurd (omega arith)
kind-otp (card number holder expiry cvv) h = absurd (omega arith)
kind-otp (otp q) h = (q, refl)
kind-otp other h = absurd (omega arith)

-- The program has not panicked.
abbrev pub Returns {ℓ} : {A : Type ℓ} → Option A → Type ℓ
Returns {A = A} o = (a : A) × (o ≡ some a)

pub bind-Returns {ℓ κ} :
    {A : Type ℓ} {B : Type κ} (o : Option A) (f : A → Option B)
    → Returns o
    → ((a : A) → Returns (f a))
    → Returns (o >>= f)
bind-Returns none f (a, e) h = absurd (ground arith)
bind-Returns (some b) f (a, e) h = h b

Result-Returns {ℓ κ} :
    {A : Type ℓ} {B : Type κ} (r : Result A) (f : A → Option (Result B))
    → ((a : A) → Returns (f a))
    → Returns (elim r [ err e ↦ some (err e) | ok a ↦ f a ])
Result-Returns (err e) f h = (err e, refl)
Result-Returns (ok a) f h = h a

module _ (input : TextInput) where
  pub change_at-some :
      (n : ℕ) (f : input.Line → input.Line) (fs : List (Field input))
      → n < length fs
      → (gs : List (Field input)) × (change_at input n f fs ≡ some gs) × (length gs ≡ length fs)
  unfolding change_at
  change_at-some n f [] h = absurd (omega arith)
  change_at-some zero f (x ∷ xs) h = (_, refl, refl)
  change_at-some (suc n) f (x ∷ xs) h =
      let (gs, e, l) = change_at-some n f xs (omega arith) in (x ∷ gs, rw e refl, ap suc l)

  pub set_values-some :
      (vs : List (Option Bytes)) (fs : List (Field input))
      → length vs ≤ length fs
      → (gs : List (Field input)) × (set_values input vs fs ≡ some gs) × (length gs ≡ length fs)
  unfolding set_values
  set_values-some [] fs h = (fs, refl, refl)
  set_values-some (v ∷ vs) [] h = absurd (omega arith)
  set_values-some (none ∷ vs) (f ∷ fs) h =
      let (gs, e, l) = set_values-some vs fs (omega arith) in (f ∷ gs, rw e refl, ap suc l)
  set_values-some (some s ∷ vs) (f ∷ fs) h =
      let (gs, e, l) = set_values-some vs fs (omega arith) in
      (record f { line = input.set_value s f.line } ∷ gs, rw e refl, ap suc l)

  value_at-some :
      (n : ℕ) (fs : List (Field input))
      → n < length fs
      → (s : Bytes) × (value_at input n fs ≡ some s)
  unfolding value_at
  value_at-some n [] h = absurd (omega arith)
  value_at-some zero (f ∷ fs) h = (_, refl)
  value_at-some (suc n) (f ∷ fs) h = value_at-some n fs (omega arith)

  module _ (conversions : Conversions) where
    pub length-edit_values :
        (t : DataType) (p : Payload)
        → kind p ≡ kind (new_payload_target t)
        → suc (length (edit_values input conversions p)) ≡ length (build_add_form_fields input t)
    unfolding edit_values build_add_form_fields new_payload_target
    length-edit_values t (credentials login password) h = ground arith
    length-edit_values t (content s) h = ground arith
    length-edit_values t (binary data_bytes filename) h = ground arith
    length-edit_values t (card number holder expiry cvv) h = ground arith
    length-edit_values t (otp p) h = ground arith
    length-edit_values t other h = ground arith

    build_otp-Returns :
        (vs : List (Field input)) → 6 ≤ length vs → Returns (build_otp input conversions vs)
    unfolding build_otp
    build_otp-Returns vs h =
        let at = λ (n : ℕ) (le : n < 6). value_at-some n vs (omega arith) in
        bind-Returns _ _ (at 4 (omega arith)) λ d.
          Result-Returns (number_or input conversions (int64_zero + 6) d) _ λ digits.
            bind-Returns _ _ (at 5 (omega arith)) λ q.
              Result-Returns (number_or input conversions (int64_zero + 30) q) _ λ period.
                bind-Returns _ _ (at 0 (omega arith)) λ a.
                  bind-Returns _ _ (at 1 (omega arith)) λ b.
                    bind-Returns _ _ (at 2 (omega arith))
                      λ c. bind-Returns _ _ (at 3 (omega arith)) λ e. (_, refl)

    build_values-Returns :
        (t : DataType) (vs : List (Field input))
        → length (build_add_form_fields input t) ≡ suc (length vs)
        → Returns (build_values input conversions t vs)
    unfolding build_values build_add_form_fields build_credentials build_text build_binary
        build_card
    build_values-Returns t vs h =
        let at = value_at-some in
        if-cases Returns (eqb t data_type_credentials) _ _
          (λ e.
            bind-Returns _ _ (at 0 vs (ground arith))
              λ a. bind-Returns _ _ (at 1 vs (ground arith)) λ b. (_, refl))
          (λ n1.
            if-cases Returns (eqb t data_type_text) _ _
              (λ e. bind-Returns _ _ (at 0 vs (ground arith)) λ a. (_, refl))
              (λ n2.
                if-cases Returns (eqb t data_type_binary) _ _
                  (λ e.
                    bind-Returns _ _ (at 0 vs (ground arith))
                      λ a. bind-Returns _ _ (at 1 vs (ground arith)) λ b. (_, refl))
                  (λ n3.
                    if-cases Returns (eqb t data_type_card) _ _
                      (λ e. bind-Returns _ _ (at 0 vs (ground arith)) λ a.
                        bind-Returns _ _ (at 1 vs (ground arith)) λ b.
                          bind-Returns _ _ (at 2 vs (ground arith))
                            λ c. bind-Returns _ _ (at 3 vs (ground arith)) λ d. (_, refl))
                      (λ n4.
                        if-cases Returns (eqb t data_type_otp) _ _
                          (λ e. build_otp-Returns vs (ground arith)) (λ n5. (_, refl))))))

    -- A form with as many fields as its type has is read without a panic.
    pub build_add_payload-Returns :
        (t : DataType) (fs : List (Field input))
        → length fs ≡ length (build_add_form_fields input t)
        → Returns (build_add_payload input conversions t fs)
    unfolding build_add_payload build_add_form_fields
    build_add_payload-Returns t [] h = absurd (omega arith)
    build_add_payload-Returns t (f ∷ fs) h =
        let (r, e) = build_values-Returns t fs (sym h) in rw e (_, refl)
