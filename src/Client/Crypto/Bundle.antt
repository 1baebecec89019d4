-- ===== src/Client/Crypto/Bundle.antt =====
-- internal/client/crypto/export.go: the encrypted bundle of a backup.
use voldepass.Prelude.{ℕ, if◌then◌else◌, eqb, List, []}
use voldepass.Domain.{Bytes, KdfParams, RecordDto, internal, Result, ok, err, ◌>>=◌}
use voldepass.Client.Json.{Json}
use voldepass.Client.Crypto.Random.{Random, Draw, and_then}
use voldepass.Client.Crypto.Aes.{Gcm, encrypt, decrypt}

pub record ExportBundle : Type 0 where
  pub version : ℕ
  pub kdf_salt : Bytes
  pub kdf_params : KdfParams
  pub wrapped_data_key : Bytes
  pub records : List RecordDto
  pub nonce : Bytes
  pub ciphertext : Bytes

-- exportBundleInner, and also ImportResult, which has the same fields.
pub record ExportBundleInner : Type 0 where
  pub kdf_salt : Bytes
  pub kdf_params : KdfParams
  pub wrapped_data_key : Bytes
  pub records : List RecordDto

-- The zero value of KdfParams.
abbrev pub zero_kdf_params : KdfParams
zero_kdf_params = record { time = 0; memory = 0; threads = 0; key_len = 0 }

module _ (random : Random) (gcm : Gcm) (inner_json : Json ExportBundleInner)
    (bundle_json : Json ExportBundle) where
  -- ExportData
  unfoldable pub export_data :
      Bytes → List RecordDto → Bytes → KdfParams → Bytes → Draw random Bytes
  unfolding encrypt
  export_data data_key records kdf_salt kdf_params wrapped_data_key s =
      let inner : ExportBundleInner = record {
        kdf_salt = kdf_salt;
        kdf_params = kdf_params;
        wrapped_data_key = wrapped_data_key;
        records = records;
      } in
      elim (inner_json.marshal inner) [
        | err e ↦ (err e, s)
        | ok plaintext ↦
            and_then random (encrypt random gcm data_key plaintext)
              (λ box s. (
                bundle_json.marshal (record {
                  version = 1;
                  kdf_salt = [];
                  kdf_params = zero_kdf_params;
                  wrapped_data_key = [];
                  records = [];
                  nonce = box.1;
                  ciphertext = box.0;
                }),
                s,
              ))
              s
      ]

  -- ImportData
  unfoldable pub import_data : (raw data_key : Bytes) → Result ExportBundleInner
  unfolding decrypt
  import_data raw data_key = do
    bundle ← bundle_json.unmarshal raw
    (if eqb bundle.version 1
        then decrypt random gcm data_key bundle.ciphertext bundle.nonce >>= inner_json.unmarshal
        else err internal)
