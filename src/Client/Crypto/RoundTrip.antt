-- ===== src/Client/Crypto/RoundTrip.antt =====
-- What is encrypted, wrapped or exported comes back.
use voldepass.Prelude.{
  ◌+◌, ◌≡◌, refl, subst, ◌∙◌, false, inl, inr, arith, [], ◌++◌, leb, length, take, drop,
  length-append, take-append, drop-append,
}
use voldepass.Domain.{Bytes, ok, Result-cases}
use voldepass.Client.Json.{Json}
use voldepass.Client.Crypto.Random.{Random}
use voldepass.Client.Crypto.Aes.{Gcm, nonce_len, encrypt, decrypt, wrap_key, unwrap_key}
use voldepass.Client.Crypto.Bundle.{
  zero_kdf_params, ExportBundle, ExportBundleInner, export_data, import_data,
}

module _ (random : Random) (gcm : Gcm) where
  -- A call of Encrypt that succeeds has a key that is accepted and a nonce of the standard length.
  abbrev pub IsBox : (key plaintext : Bytes) → Bytes × Bytes → Type 0
  IsBox key plaintext box =
      (gcm.new_gcm key ≡ ok tt)
      × (box.0 ≡ gcm.seal key box.1 plaintext)
      × (length box.1 ≡ nonce_len)

  pub encrypt-IsBox :
      (key plaintext : Bytes) (box : Bytes × Bytes) (s : random.State)
      → (encrypt random gcm key plaintext s).0 ≡ ok box
      → IsBox key plaintext box
  unfolding encrypt
  encrypt-IsBox key plaintext box s h = elim (Result-cases (gcm.new_gcm key)) [
    | inr (x, e) ↦ absurd (ground arith)
    | inl (u, e) ↦ elim (Result-cases (random.read_full gcm.nonce_size s).0) [
      | inr (x, f) ↦ absurd (ground arith)
      | inl (n, f) ↦
          let len = random.length-read_full gcm.nonce_size s n f in
          let std = gcm.standard_nonce_size in
          let same : (gcm.seal key n plaintext, n) ≡ box = ground arith in
          subst (IsBox key plaintext) same (e, refl, len ∙ std)
    ]
  ]

  decrypt-IsBox :
      (key plaintext : Bytes) (box : Bytes × Bytes)
      → IsBox key plaintext box
      → decrypt random gcm key box.0 box.1 ≡ ok plaintext
  unfolding decrypt
  decrypt-IsBox key plaintext box (accepted, sealed, len) =
      rw (len, accepted, sealed) (gcm.unseal-seal key box.1 plaintext)

  -- What Encrypt returns, Decrypt takes back to the plaintext, under the same key.
  pub decrypt-encrypt :
      (key plaintext : Bytes) (box : Bytes × Bytes) (s : random.State)
      → (encrypt random gcm key plaintext s).0 ≡ ok box
      → decrypt random gcm key box.0 box.1 ≡ ok plaintext
  decrypt-encrypt key plaintext box s h =
      decrypt-IsBox key plaintext box (encrypt-IsBox key plaintext box s h)

  -- A data key that WrapKey wrapped comes back from UnwrapKey, under the same key.
  pub unwrap_key-wrap_key :
      (enc_key data_key wrapped : Bytes) (s : random.State)
      → (wrap_key random gcm enc_key data_key s).0 ≡ ok wrapped
      → unwrap_key random gcm enc_key wrapped ≡ ok data_key
  unfolding wrap_key unwrap_key
  unwrap_key-wrap_key enc_key data_key wrapped s h =
      elim (Result-cases (encrypt random gcm enc_key data_key s).0) [
        | inr (x, e) ↦ absurd (ground arith)
        | inl (box, e) ↦
            let b = encrypt-IsBox enc_key data_key box s e in
            let joined : box.1 ++ box.0 ≡ wrapped = ground arith in
            let (accepted, sealed, len) = b in
            let taken : take nonce_len wrapped ≡ box.1 =
              rw (← joined)
                (subst (λ n. take n (box.1 ++ box.0) ≡ box.1) len (take-append box.1 box.0)) in
            let dropped : drop nonce_len wrapped ≡ box.0 =
              rw (← joined)
                (subst (λ n. drop n (box.1 ++ box.0) ≡ box.0) len (drop-append box.1 box.0)) in
            let opened = decrypt-IsBox enc_key data_key box b in
            let sum : length wrapped ≡ length box.1 + length box.0 =
              rw (← joined) (length-append box.1 box.0) in
            let tag = gcm.length-seal enc_key box.1 data_key in
            let long : leb (length wrapped) nonce_len ≡ false =
              ground (arith, tag, sum, sealed, len) in
            rw (long, taken, dropped) opened
      ]

  -- What ExportData returned, ImportData takes back to the profile and the records, under the same
  -- data key.
  pub import_data-export_data :
      (inner_json : Json ExportBundleInner) (bundle_json : Json ExportBundle) (data_key : Bytes)
      (inner : ExportBundleInner) (raw : Bytes) (s : random.State)
      → (export_data random gcm inner_json bundle_json data_key inner.records inner.kdf_salt
          inner.kdf_params inner.wrapped_data_key s).0
        ≡ ok raw
      → import_data random gcm inner_json bundle_json raw data_key ≡ ok inner
  unfolding export_data import_data
  import_data-export_data inner_json bundle_json data_key inner raw s h =
      elim (Result-cases (inner_json.marshal inner)) [
        | inr (x, e) ↦ absurd (ground arith)
        | inl (plaintext, e) ↦ elim (Result-cases (encrypt random gcm data_key plaintext s).0) [
          | inr (x, f) ↦ absurd (ground arith)
          | inl (box, f) ↦
              let bundle : ExportBundle = record {
                version = 1;
                kdf_salt = [];
                kdf_params = zero_kdf_params;
                wrapped_data_key = [];
                records = [];
                nonce = box.1;
                ciphertext = box.0;
              } in
              let written : bundle_json.marshal bundle ≡ ok raw = ground arith in
              rw
                (
                  bundle_json.unmarshal-marshal bundle raw written,
                  decrypt-encrypt data_key plaintext box s f,
                )
                (inner_json.unmarshal-marshal inner plaintext e)
        ]
      ]
