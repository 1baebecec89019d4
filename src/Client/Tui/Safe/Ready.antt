-- ===== src/Client/Tui/Safe/Ready.antt =====
-- When the interface is ready for the next message, and what the parts of the messages keep of that.
use voldepass.Prelude.{
  ℕ, zero, suc, ◌-◌, ◌≤◌, ◌<◌, ◌≡◌, ◌≢◌, refl, ◌+◌, String, Option, none, some, List, [], ◌∷◌,
  length, eqb, arith, true, false, ◌⊎◌, if-cases, get_elem?, ltb,
}
use voldepass.Domain.{
  Bytes, Time, DataType, data_type_otp, int64_zero, RecordDto, Result, ok, err, Error,
}
use voldepass.Client.Tui.Input.{◌>>=◌, TextInput, Conversions}
use voldepass.Client.Tui.Form.{Payload, OtpPayload, otp, build_add_form_fields, new_payload_target}
use voldepass.Client.Tui.Model.{
  Vault, Screen, login, listing, detail, add_type, add_form, quit, add_type_options, Model, Msg,
  key, otp_tick, session_result, sync_result, Updated, clamped,
}
use voldepass.Client.Tui.Safe.Fields.{kind, Returns}

-- From 0 to 9 digits.
abbrev pub HasDigits : OtpPayload → Type 0
HasDigits p = (int64_zero ≤ p.digits) × (p.digits ≤ int64_zero + 9)

-- What the interface relies on in the vault: a decoded payload is of the type that was asked for,
-- saving a record removes none from the list, a deletion that is refused changes nothing, and the
-- code of a record can be computed, or is refused, if the record cannot be decoded or has from 0 to 9
-- digits.
pub record Laws (vault : Vault) : Type 0 where
  pub get-kind :
      (id : String) (meta : Bytes) (target p : Payload) (v : vault.State)
      → vault.get id target v ≡ ok (meta, p)
      → kind p ≡ kind target
  pub create-length :
      (now : Time) (t : DataType) (meta : Bytes) (p : Payload) (v : vault.State)
      → length (vault.list v) ≤ length (vault.list (vault.create now t meta p v).1)
  pub update-length :
      (now : Time) (id : String) (meta : Bytes) (p : Payload) (v : vault.State)
      → length (vault.list v) ≤ length (vault.list (vault.update now id meta p v).1)
  pub delete-refused :
      (now : Time) (id : String) (v : vault.State)
      → (vault.delete now id v).0 ≢ ok tt
      → (vault.delete now id v).1 ≡ v
  pub current_totp-returns :
      (now : Time) (id : String) (meta : Bytes) (p : OtpPayload) (v : vault.State)
      → vault.get id (new_payload_target data_type_otp) v ≡ ok (meta, otp p)
      → HasDigits p
      → Returns (vault.current_totp now id v)
  pub current_totp-refused :
      (now : Time) (id : String) (e : Error) (v : vault.State)
      → vault.get id (new_payload_target data_type_otp) v ≡ err e
      → Returns (vault.current_totp now id v)

pub get_elem?-Returns {ℓ} :
    {A : Type ℓ} (xs : List A) (n : ℕ) → n < length xs → Returns (get_elem? xs n)
get_elem?-Returns [] n h = absurd (omega arith)
get_elem?-Returns (x ∷ xs) zero h = (x, refl)
get_elem?-Returns (x ∷ xs) (suc n) h = get_elem?-Returns xs n (omega arith)

-- What is done with a list that may be empty.
pub empty-cases {ℓ κ μ} :
    {A : Type ℓ} {B : Type κ} (P : B → Type μ) (xs : List A) (a b : B)
    → P a
    → (0 < length xs → P b)
    → P (elim xs [ [] ↦ a | _ ∷ _ ↦ b ])
empty-cases P [] a b h g = h
empty-cases P (x ∷ xs) a b h g = g (omega arith)

module _ (input : TextInput) (vault : Vault) (conversions : Conversions) where
  abbrev pub State : Type 0
  State = Model input vault conversions

  -- The store is there, and holds as many records as the list shows.
  abbrev pub Holds : Option vault.State → List RecordDto → Type 0
  Holds none rs = ⊥
  Holds (some v) rs = length rs ≤ length (vault.list v)

  -- The form has the fields of its type, and the focus is on one of them.
  abbrev pub IsFilled : State → Type 0
  IsFilled m =
      (m.add_focus < length m.add_fields)
      × (length m.add_fields ≡ length (build_add_form_fields input m.add_data_type))

  abbrev pub OnScreen : Screen → State → Type 0
  OnScreen login m = (m.cursor ≡ 0) × (m.syncing ≡ false)
  OnScreen listing m = Holds m.opened m.records × (m.logging_in ≡ false)
  OnScreen detail m = Holds m.opened m.records × (m.logging_in ≡ false)
  OnScreen add_type m = Holds m.opened m.records × (m.logging_in ≡ false)
  OnScreen add_form m = Holds m.opened m.records × (m.logging_in ≡ false) × IsFilled m

  -- The two cursors point into what they go through, and each record of the list has a label.
  abbrev pub HasCursors : State → Type 0
  HasCursors m =
      (m.cursor ≤ length m.records - 1)
      × (length m.record_labels ≡ length m.records)
      × (m.add_type_cursor < length add_type_options)

  abbrev pub IsReady : State → Type 0
  IsReady m = HasCursors m × OnScreen m.screen m

  -- A record whose code can be computed, if it is one of an OTP that can be decoded.
  abbrev pub IsShowable : vault.State → RecordDto → Type 0
  IsShowable v dto =
      (meta : Bytes) (p : OtpPayload)
      → eqb dto.data_type data_type_otp ≡ true
      → vault.get dto.id (new_payload_target data_type_otp) v ≡ ok (meta, otp p)
      → HasDigits p

  -- The record under the cursor is such a one.
  abbrev pub CanShow : State → Type 0
  CanShow m =
      (v : vault.State) (dto : RecordDto)
      → m.opened ≡ some v
      → get_elem? m.records m.cursor ≡ some dto
      → IsShowable v dto

  -- The code is computed on a key on the list, and on a tick where a record is shown.
  abbrev pub Shows : Msg input vault conversions → Screen → State → Type 0
  Shows (key k) listing m = CanShow m
  Shows otp_tick detail m = CanShow m
  Shows _ _ m = Unit

  -- The program goes on: it has not panicked, and it quits or is ready for the next message.
  abbrev pub GoesOn : Updated input vault conversions → Type 0
  GoesOn none = ⊥
  GoesOn (some (m, c)) = (c ≡ quit) ⊎ IsReady m

  -- The messages that can come: an answer comes to what was asked for.
  abbrev pub IsExpected : Msg input vault conversions → State → Type 0
  IsExpected (key k) m = Unit
  IsExpected otp_tick m = Unit
  IsExpected (session_result r) m = m.logging_in ≡ true
  IsExpected (sync_result r) m = m.syncing ≡ true

  abbrev pub shown : Screen → State → State
  shown s m = record m { screen = s }

  -- To go on with a value that is there.
  pub bind-GoesOn {ℓ} :
      {A : Type ℓ} (o : Option A) (f : A → Updated input vault conversions)
      → Returns o
      → ((a : A) → o ≡ some a → GoesOn (f a))
      → GoesOn (o >>= f)
  bind-GoesOn none f (a, e) h = absurd (ground arith)
  bind-GoesOn (some b) f (a, e) h = h b refl

  pub Result-GoesOn {ℓ} :
      {A : Type ℓ} (r : Result A) (f : Error → Updated input vault conversions)
      (g : A → Updated input vault conversions)
      → ((e : Error) → GoesOn (f e))
      → ((a : A) → GoesOn (g a))
      → GoesOn (elim r [ err e ↦ f e | ok a ↦ g a ])
  Result-GoesOn (err e) f g h k = h e
  Result-GoesOn (ok a) f g h k = k a

  -- The store that is there.
  pub with_store :
      (o : Option vault.State) (rs : List RecordDto)
      (f : vault.State → Updated input vault conversions)
      → Holds o rs
      → ((v : vault.State) → o ≡ some v → Holds (some v) rs → GoesOn (f v))
      → GoesOn (o >>= f)
  with_store none rs f h g = absurd h
  with_store (some v) rs f h g = g v refl h

  pub clamped-cursor :
      (m : State) → (clamped input vault conversions m).cursor ≤ length m.records - 1
  clamped-cursor m =
      if-cases (λ (x : State). x.cursor ≤ length m.records - 1) (ltb m.cursor (length m.records)) m
        (record m { cursor = length m.records - 1 }) (λ e. ground arith) (λ e. omega arith)

  -- Nothing but the cursor is changed by bringing it back.
  pub clamped-cases {κ} :
      (P : State → Type κ) (m : State)
      → ((n : ℕ) → n ≤ length m.records - 1 → P (record m { cursor = n }))
      → P (clamped input vault conversions m)
  clamped-cases P m h =
      if-cases P (ltb m.cursor (length m.records)) _ _ (λ e. h m.cursor (ground arith))
        (λ e. h (length m.records - 1) (omega arith))
