-- ===== src/Client/AuthFlow.antt =====
-- internal/client/service/authflow.go, with DeriveKeys of internal/client/crypto/kdf.go and AuthMessage of
-- auth.go: registration and login of a client. `id_key` is argon2.IDKey, and `hmac` is HMAC-SHA256.
pub mod Recovery
use voldepass.Prelude.{ℕ, String, Option, none, some, List, [], ◌∷◌, ◌++◌}
use voldepass.Domain.{Bytes, KdfParams, default_kdf_params, Profile, Result, ok, err}
use voldepass.Client.Storage
use voldepass.Client.Crypto.Random.{Random, Draw, and_then}
use voldepass.Client.Crypto.Aes.{Gcm, generate_salt, generate_data_key, wrap_key, unwrap_key}

-- What DeriveKeys and AuthMessage call.
pub record Kdf : Type 0 where
  pub id_key : Bytes → Bytes → KdfParams → Bytes
  pub hmac : Bytes → Bytes → Bytes

-- authTransport: the server's state is passed on. Login gives the tokens that Tokens returns after it.
pub record AuthTransport : Type 1 where
  pub Server : Type 0
  pub register : String → Bytes → Profile → Server → Result (Unit {0}) × Server
  pub challenge : String → Server → Result (Bytes × Profile) × Server
  pub login : String → Bytes → Server → Result (String × String) × Server

-- The bytes of "|auth" and of "|enc".
abbrev pub auth_suffix : Bytes
auth_suffix = 124 ∷ 97 ∷ 117 ∷ 116 ∷ 104 ∷ []

abbrev pub enc_suffix : Bytes
enc_suffix = 124 ∷ 101 ∷ 110 ∷ 99 ∷ []

-- DeriveKeys: the key that authenticates, and the key that wraps the data key.
unfoldable pub derive_keys : Kdf → Bytes → Bytes → KdfParams → Bytes × Bytes
derive_keys kdf master_password salt params = (
  kdf.id_key (master_password ++ auth_suffix) salt params,
  kdf.id_key (master_password ++ enc_suffix) salt params,
)

-- AuthMessage
unfoldable pub auth_message : Kdf → Bytes → Bytes → Bytes
auth_message kdf auth_key server_nonce = kdf.hmac auth_key server_nonce

module _ (random : Random) (gcm : Gcm) (kdf : Kdf) (transport : AuthTransport) where
  -- The keys and the profile that Register makes.
  pub record Keys : Type 0 where
    pub auth_key : Bytes
    pub data_key : Bytes
    pub profile : Profile

  -- Register, before it sends anything
  unfoldable pub make_keys : Bytes → Draw random Keys
  unfolding derive_keys
  make_keys master_password = and_then random (generate_salt random gcm) λ salt.
      let keys = derive_keys kdf master_password salt default_kdf_params in
      and_then random (generate_data_key random gcm) λ data_key.
        and_then random (wrap_key random gcm keys.1 data_key) λ wrapped r. (
          ok (record {
            auth_key = keys.0;
            data_key = data_key;
            profile = record {
              user_id = "";
              kdf_salt = salt;
              kdf_params = default_kdf_params;
              wrapped_data_key = wrapped;
              profile_version = 1;
            };
          }),
          r,
        )

  -- The server and the local state.
  abbrev pub World : Type 0
  World = transport.Server × Storage.State

  -- Register, from the keys on
  unfoldable pub send_keys : String → Keys → World → Result Bytes × World
  send_keys login k (server, store) =
      let (r, server') = transport.register login k.auth_key k.profile server in
      elim r [
        | err e ↦ (err e, (server', store))
        | ok _ ↦ (
          ok k.data_key,
          (
            server',
            Storage.set_profile k.profile.kdf_salt k.profile.kdf_params k.profile.wrapped_data_key
                store,
          ),
        )
      ]

  -- Register
  unfoldable pub register : String → Bytes → random.State → World → Result Bytes × World
  unfolding make_keys send_keys
  register login master_password r w = elim (make_keys master_password r).0 [
    | err e ↦ (err e, w)
    | ok k ↦ send_keys login k w
  ]

  -- Login, from the tokens on
  unfoldable pub accept : Profile → String × String → Bytes → Storage.State → Storage.State
  accept profile (access, refresh) data_key store =
      Storage.set_tokens access refresh
        (Storage.set_profile profile.kdf_salt profile.kdf_params profile.wrapped_data_key store)

  -- Login
  unfoldable pub login : String → Bytes → World → Result Bytes × World
  unfolding derive_keys auth_message accept
  login name master_password (server, store) =
      let (challenged, server1) = transport.challenge name server in
      elim challenged [
        | err e ↦ (err e, (server1, store))
        | ok (nonce, profile) ↦
            let keys = derive_keys kdf master_password profile.kdf_salt profile.kdf_params in
            let (tokens, server2) = transport.login name (auth_message kdf keys.0 nonce) server1 in
            elim tokens [
              | err e ↦ (err e, (server2, store))
              | ok t ↦ elim (unwrap_key random gcm keys.1 profile.wrapped_data_key) [
                | err e ↦ (err e, (server2, store))
                | ok data_key ↦ (ok data_key, (server2, accept profile t data_key store))
              ]
            ]
      ]
