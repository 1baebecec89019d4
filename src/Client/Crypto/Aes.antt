-- ===== src/Client/Crypto/Aes.antt =====
-- internal/client/crypto/aes.go, keywrap.go and kdf.go. AES-GCM and Argon2id are parameters.
use voldepass.Prelude.{ℕ, ◌+◌, ◌≡◌, if◌then◌else◌, leb, eqb, length, take, drop, ◌++◌}
use voldepass.Domain.{Bytes, internal, Result, ok, err, ◌>>=◌}
use voldepass.Client.Crypto.Random.{Random, Draw, and_then}

-- crypto/aes and crypto/cipher: `new_gcm` is aes.NewCipher with cipher.NewGCM, which fail on a key
-- of a wrong length; `seal` and `unseal` are the methods Seal and Open of what they make, without
-- additional data.
pub record Gcm : Type 0 where
  pub new_gcm : Bytes → Result (Unit {0})
  pub nonce_size : ℕ
  pub seal : (key nonce plaintext : Bytes) → Bytes
  pub unseal : (key nonce ciphertext : Bytes) → Result Bytes
  pub standard_nonce_size : nonce_size ≡ 12
  pub unseal-seal :
      (key nonce plaintext : Bytes) → unseal key nonce (seal key nonce plaintext) ≡ ok plaintext
  pub length-seal :
      (key nonce plaintext : Bytes) → length (seal key nonce plaintext) ≡ length plaintext + 16

-- nonceLen
abbrev pub nonce_len : ℕ
nonce_len = 12

-- dataKeyLen
abbrev pub data_key_len : ℕ
data_key_len = 32

-- saltLen
abbrev pub salt_len : ℕ
salt_len = 32

module _ (random : Random) (gcm : Gcm) where
  -- Encrypt: the ciphertext and the nonce.
  unfoldable pub encrypt : (key plaintext : Bytes) → Draw random (Bytes × Bytes)
  encrypt key plaintext s = elim (gcm.new_gcm key) [
    | err e ↦ (err e, s)
    | ok _ ↦
        and_then random (random.read_full gcm.nonce_size)
          (λ nonce s. (ok (gcm.seal key nonce plaintext, nonce), s)) s
  ]

  -- Decrypt
  unfoldable pub decrypt : (key ciphertext nonce : Bytes) → Result Bytes
  decrypt key ciphertext nonce =
      if eqb (length nonce) nonce_len
      then gcm.new_gcm key >>= (λ _. gcm.unseal key nonce ciphertext)
      else err internal

  -- WrapKey
  unfoldable pub wrap_key : (enc_key data_key : Bytes) → Draw random Bytes
  unfolding encrypt
  wrap_key enc_key data_key =
      and_then random (encrypt enc_key data_key) (λ box s. (ok (box.1 ++ box.0), s))

  -- UnwrapKey
  unfoldable pub unwrap_key : (enc_key wrapped : Bytes) → Result Bytes
  unfolding decrypt
  unwrap_key enc_key wrapped =
      if leb (length wrapped) nonce_len
      then err internal
      else decrypt enc_key (drop nonce_len wrapped) (take nonce_len wrapped)

  -- GenerateDataKey
  unfoldable pub generate_data_key : Draw random Bytes
  generate_data_key = random.read_full data_key_len

  -- GenerateSalt
  unfoldable pub generate_salt : Draw random Bytes
  generate_salt = random.read_full salt_len
