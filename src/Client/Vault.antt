-- ===== src/Client/Vault.antt =====
-- internal/client/service/vault_manager.go: the vault over the local store. A Go string is a
-- sequence of bytes: the label `meta` is Bytes here. The id that uuid.NewString draws and the time
-- are arguments.
pub mod RoundTrip
pub mod Stale
use mathlib.Core.List.{filter}
use voldepass.Prelude.{
  ℕ, ◌*◌, ◌^◌, String, Bool, true, false, not, Option, none, some, List, [], ◌∷◌, map, ltb, length,
  if◌then◌else◌, dec_true, ◌≡◌,
}
use voldepass.Domain.{
  Bytes, Time, DataType, RecordDto, int64_zero, Error, not_found, payload_too_large, Result, ok,
  err, ◌>>=◌,
}
use voldepass.Client.Storage
use voldepass.Client.Storage.{StoredRecord}
use voldepass.Client.Json.{Json}
use voldepass.Client.Crypto.Random.{Random, Draw, and_then}
use voldepass.Client.Crypto.Aes.{Gcm, encrypt, decrypt}

-- maxPlaintextPayloadBytes: 7 << 20
abbrev pub max_plaintext_payload_bytes : ℕ
max_plaintext_payload_bytes = 7 * 2 ^ 20

-- An encrypted record: the payload's ciphertext and nonce, and those of the label.
pub record Sealed : Type 0 where
  pub ciphertext : Bytes
  pub nonce : Bytes
  pub encrypted_meta : Bytes
  pub meta_nonce : Bytes

-- The fields that Create and Update fill in.
abbrev pub with_sealed : Sealed → RecordDto → RecordDto
with_sealed x dto = record dto {
  encrypted_meta = x.encrypted_meta;
  meta_nonce = x.meta_nonce;
  ciphertext = x.ciphertext;
  nonce = x.nonce;
}

-- The record that Create starts from.
abbrev pub blank : String → DataType → RecordDto
blank id data_type = record {
  id = id;
  data_type = data_type;
  encrypted_meta = [];
  meta_nonce = [];
  ciphertext = [];
  nonce = [];
  version = int64_zero;
  base_version = int64_zero;
  updated_at = 0;
  is_deleted = false;
}

abbrev pub dirtied : Time → RecordDto → StoredRecord
dirtied now dto = record { dto = dto; dirty = true; dirty_at = now }

module _ (random : Random) (gcm : Gcm) {Payload : Type 0} (json : Json Payload)
    (data_key : Bytes) where
  -- The label, encrypted, if there is one.
  unfoldable pub encrypt_meta : Bytes → Draw random (Bytes × Bytes)
  encrypt_meta [] s = (ok ([], []), s)
  encrypt_meta (b ∷ bs) s = encrypt random gcm data_key (b ∷ bs) s

  -- What Create and Update begin with: the payload's JSON, its limit, and the encryption of both.
  unfoldable pub seal_record : Bytes → Payload → Draw random Sealed
  unfolding encrypt_meta
  seal_record meta payload s = elim (json.marshal payload) [
    | err e ↦ (err e, s)
    | ok plaintext ↦
        if ltb max_plaintext_payload_bytes (length plaintext)
        then (err payload_too_large, s)
        else and_then random (encrypt random gcm data_key plaintext)
            (λ box. and_then random (encrypt_meta meta) (λ label s. (
              ok (record {
                ciphertext = box.0;
                nonce = box.1;
                encrypted_meta = label.0;
                meta_nonce = label.1;
              }),
              s,
            )))
            s
  ]

  -- What they end with: the record, stored as an edit.
  abbrev pub store_sealed :
      Time
      → RecordDto
      → Storage.State
      → Result Sealed × random.State
      → Result RecordDto × random.State × Storage.State
  store_sealed now dto store (err e, s) = (err e, s, store)
  store_sealed now dto store (ok x, s) =
      (ok (with_sealed x dto), s, Storage.put_record (dirtied now (with_sealed x dto)) store)

  -- Create
  unfoldable pub create :
      String
      → Time
      → DataType
      → Bytes
      → Payload
      → random.State
      → Storage.State
      → Result RecordDto × random.State × Storage.State
  unfolding seal_record
  create id now data_type meta payload s store =
      store_sealed now (blank id data_type) store (seal_record meta payload s)

  -- Update
  unfoldable pub update :
      Time
      → String
      → Bytes
      → Payload
      → random.State
      → Storage.State
      → Result RecordDto × random.State × Storage.State
  unfolding seal_record
  update now id meta payload s store = elim (Storage.get_record id store) [
    | none ↦ (err not_found, s, store)
    | some existing ↦
        store_sealed now (record existing.dto { base_version = existing.version }) store
          (seal_record meta payload s)
  ]

  -- Delete
  unfoldable pub delete : Time → String → Storage.State → Result (Unit {0}) × Storage.State
  delete now id store = elim (Storage.get_record id store) [
    | none ↦ (err not_found, store)
    | some existing ↦ (
      ok tt,
      Storage.put_record
          (dirtied now (record existing.dto { is_deleted = true; base_version = existing.version }))
          store,
    )
  ]

  -- GetMeta, from the record on
  unfoldable pub open_meta : RecordDto → Result Bytes
  open_meta dto = elim dto.encrypted_meta [
    | [] ↦ ok []
    | b ∷ bs ↦ decrypt random gcm data_key (b ∷ bs) dto.meta_nonce
  ]

  -- GetMeta
  unfoldable pub get_meta : String → Storage.State → Result Bytes
  unfolding open_meta
  get_meta id store = elim (Storage.get_record id store) [
    | none ↦ err not_found
    | some r ↦ open_meta r.dto
  ]

  -- Get, with a target or without one
  unfoldable pub get : Bool → String → Storage.State → Result (Bytes × RecordDto × Option Payload)
  unfolding open_meta
  get wanted id store = elim (Storage.get_record id store) [
    | none ↦ err not_found
    | some r ↦ do
      plaintext ← decrypt random gcm data_key r.ciphertext r.nonce
      target ← (if wanted then json.unmarshal plaintext >>= (λ p. ok (some p)) else ok none)
      meta ← open_meta r.dto
      ok (meta, r.dto, target)
  ]

-- Import
unfoldable pub import_records : Time → List RecordDto → Storage.State → Storage.State
import_records now [] store = store
import_records now (dto ∷ dtos) store =
    import_records now dtos
      (Storage.put_record (dirtied now (record dto { base_version = dto.version })) store)

-- List
unfoldable pub list : Storage.State → List RecordDto
list store =
    map (λ (r : StoredRecord). r.dto)
      (filter (λ (r : StoredRecord). dec_true (not r.is_deleted)) (Storage.list_records store))
