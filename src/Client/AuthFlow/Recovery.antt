-- ===== src/Client/AuthFlow/Recovery.antt =====
-- A login gives back the data key of the registration.
use voldepass.Prelude.{String, ◌≡◌, refl, subst, inl, inr, arith}
use voldepass.Domain.{Bytes, Profile, default_kdf_params, ok, Result-cases}
use voldepass.Client.Storage
use voldepass.Client.Crypto.Random.{Random}
use voldepass.Client.Crypto.Aes.{Gcm, generate_salt, generate_data_key, wrap_key, unwrap_key}
use voldepass.Client.Crypto.RoundTrip.{unwrap_key-wrap_key}
use voldepass.Client.AuthFlow.{
  Kdf, AuthTransport, derive_keys, auth_message, Keys, make_keys, World, send_keys, register,
  accept, login,
}

module _ (random : Random) (gcm : Gcm) (kdf : Kdf) (transport : AuthTransport) where
  -- The keys of a registration: the profile wraps the data key for the master password.
  abbrev IsWrapped : Bytes → Keys random gcm kdf transport → Type 0
  IsWrapped master_password k =
      (k.auth_key ≡ (derive_keys kdf master_password k.profile.kdf_salt k.profile.kdf_params).0)
      × (unwrap_key random gcm
            (derive_keys kdf master_password k.profile.kdf_salt k.profile.kdf_params).1
            k.profile.wrapped_data_key
          ≡ ok k.data_key)

  make_keys-IsWrapped :
      (master_password : Bytes) (r : random.State) (k : Keys random gcm kdf transport)
      → (make_keys random gcm kdf transport master_password r).0 ≡ ok k
      → IsWrapped master_password k
  unfolding make_keys derive_keys
  make_keys-IsWrapped master_password r k h = elim (Result-cases (generate_salt random gcm r).0) [
    | inr (e, f) ↦ absurd (ground arith)
    | inl (salt, f) ↦
        let r1 = (generate_salt random gcm r).1 in
        elim (Result-cases (generate_data_key random gcm r1).0) [
          | inr (e, g) ↦ absurd (ground arith)
          | inl (data_key, g) ↦
              let r2 = (generate_data_key random gcm r1).1 in
              let keys = derive_keys kdf master_password salt default_kdf_params in
              elim (Result-cases (wrap_key random gcm keys.1 data_key r2).0) [
                | inr (e, w) ↦ absurd (ground arith)
                | inl (wrapped, w) ↦
                    let opened = unwrap_key-wrap_key random gcm keys.1 data_key wrapped r2 w in
                    let made : Keys random gcm kdf transport = record {
                      auth_key = keys.0;
                      data_key = data_key;
                      profile = record {
                        user_id = "";
                        kdf_salt = salt;
                        kdf_params = default_kdf_params;
                        wrapped_data_key = wrapped;
                        profile_version = 1;
                      };
                    } in
                    let same : made ≡ k = ground arith in
                    subst (IsWrapped master_password) same (refl, opened)
              ]
        ]
  ]

  -- What a registration that succeeded has saved.
  register-IsSaved :
      (name : String) (master_password data_key : Bytes) (r : random.State)
      (w : World random gcm kdf transport)
      → (register random gcm kdf transport name master_password r w).0 ≡ ok data_key
      → let saved = (register random gcm kdf transport name master_password r w).1.1 in
        unwrap_key random gcm
          (derive_keys kdf master_password saved.kdf_salt saved.kdf_params).1
          saved.wrapped_data_key
        ≡ ok data_key
  unfolding register send_keys Storage.set_profile
  register-IsSaved name master_password data_key r (server, store) h =
      elim (Result-cases (make_keys random gcm kdf transport master_password r).0) [
        | inr (e, f) ↦ absurd (ground arith)
        | inl (k, f) ↦
            let (_, opened) = make_keys-IsWrapped master_password r k f in
            elim (Result-cases (transport.register name k.auth_key k.profile server).0) [
              | inr (e, g) ↦ absurd (ground arith)
              | inl (u, g) ↦
                  let same : k.data_key ≡ data_key = ground arith in
                  rw (register, f, send_keys, g, ← same) opened
            ]
      ]

  -- If Register succeeded, then Login with the same password gives the data key that Register gave,
  -- whatever the server and the local state are by then, as long as the challenge brings the salt, the
  -- parameters and the wrapped key that Register saved, and the server takes the message of the
  -- challenge. The local state then has the profile and the tokens.
  pub login-register :
      (name : String) (master_password data_key : Bytes) (r : random.State)
      → (w later : World random gcm kdf transport) (nonce : Bytes) (profile : Profile)
      → (tokens : String × String)
      → (register random gcm kdf transport name master_password r w).0 ≡ ok data_key
      → let saved = (register random gcm kdf transport name master_password r w).1.1 in
        let asked = transport.challenge name later.0 in
        let auth_key = (derive_keys kdf master_password profile.kdf_salt profile.kdf_params).0 in
        let accepted = transport.login name (auth_message kdf auth_key nonce) asked.1 in
        profile.kdf_salt ≡ saved.kdf_salt
        → profile.kdf_params ≡ saved.kdf_params
        → profile.wrapped_data_key ≡ saved.wrapped_data_key
        → asked.0 ≡ ok (nonce, profile)
        → accepted.0 ≡ ok tokens
        → login random gcm kdf transport name master_password later ≡ (
          ok data_key,
          (accepted.1, accept random gcm kdf transport profile tokens data_key later.1),
        )
  unfolding login
  login-register name master_password data_key r w (server, store) nonce profile tokens h salt
        params wrapped asked accepted =
      let opened : unwrap_key random gcm
            (derive_keys kdf master_password profile.kdf_salt profile.kdf_params).1
            profile.wrapped_data_key
          ≡ ok data_key =
        rw (salt, params, wrapped) (register-IsSaved name master_password data_key r w h) in
      rw (login, asked, accepted, opened) refl
