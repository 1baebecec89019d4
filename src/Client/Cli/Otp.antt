-- ===== src/Client/Cli/Otp.antt =====
-- internal/client/service/otp.go and internal/client/cli/otp.go: the code of a record. `none` stands for a panic.
use voldepass.Prelude.{
  ℕ, ◌+◌, ◌≤◌, ◌≡◌, refl, String, true, Option, none, some, eqb, if◌then◌else◌, Bool-cases, inl,
  inr,
}
use voldepass.Domain.{Bytes, RecordDto, int64_zero, data_type_otp, Result, ok, err, internal}
use voldepass.Client.Storage
use voldepass.Client.Vault
use voldepass.Client.Crypto.Totp.Code.{Library, generate_totp, generate_totp-returns}
use voldepass.Client.Tui.Form.{Payload, OtpPayload, otp}
use voldepass.Client.Cli.{Setup, Env, Bundle, Machine, leave, open_session, close}

module _ (c : Setup) (lib : Library) where
  -- The code of a payload that was decoded as one of an OTP.
  abbrev code_of : Payload → ℕ → Option (Result Bytes)
  code_of (otp p) unix = generate_totp lib p.secret p.algorithm p.digits p.period unix
  code_of _ unix = some (err internal)

  -- CurrentTOTP
  unfoldable pub current_totp : Bytes → String → ℕ → Storage.State → Option (Result Bytes)
  current_totp data_key id unix store =
      elim (Vault.get c.random c.gcm (c.json data_type_otp) data_key true id store) [
        | ok (_, dto, some payload) ↦
            if eqb dto.data_type data_type_otp then code_of payload unix else some (err internal)
        | ok (_, dto, none) ↦ some (err internal)
        | err e ↦ some (err e)
      ]

  -- CurrentTOTP does not panic on a record that is decoded with 0 to 9 digits, which is what the terminal
  -- interface relies on.
  pub current_totp-returns :
      (data_key : Bytes) (id : String) (unix n : ℕ) (meta : Bytes) (dto : RecordDto)
      (p : OtpPayload) (store : Storage.State)
      → Vault.get c.random c.gcm (c.json data_type_otp) data_key true id store
        ≡ ok (meta, dto, some (otp p))
      → p.digits ≡ int64_zero + n
      → n ≤ 9
      → (r : Result Bytes) × (current_totp data_key id unix store ≡ some r)
  unfolding current_totp
  current_totp-returns data_key id unix n meta dto p store got digits small =
      elim (Bool-cases (eqb dto.data_type data_type_otp)) [
        | inr other_type ↦ (err internal, rw (current_totp, got, other_type) refl)
        | inl t ↦
            let (r, e) = generate_totp-returns lib p.secret p.algorithm n p.period unix small in
            (r, rw (current_totp, got, t, digits) e)
      ]

  -- runOTPGet, from the session on: nothing is left of a run that panics.
  unfoldable pub otp_record : Env → String → ℕ → Bundle c → Option (Result Bytes × Machine c)
  unfolding current_totp
  otp_record env id unix b = elim (current_totp b.data_key id unix b.world.1.store) [
    | none ↦ none
    | some (err e) ↦ some (err e, leave c b)
    | some (ok code) ↦
        let (closed, m) = close c env b in some (elim closed [ ok _ ↦ ok code | err e ↦ err e ], m)
  ]

  -- runOTPGet
  unfoldable pub run_otp_get :
      Env → String → Bytes → String → ℕ → Machine c → Option (Result Bytes × Machine c)
  unfolding otp_record
  run_otp_get env login password id unix m =
      let (opened, m') = open_session c env login password m in
      elim opened [ err e ↦ some (err e, m') | ok b ↦ otp_record env id unix b ]
