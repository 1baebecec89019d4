-- ===== src/Client/Vault/RoundTrip.antt =====
-- What the vault stores, it reads back.
use voldepass.Prelude.{
  String, ◌≡◌, refl, sym, ◌∙◌, ap, subst, true, some, [], ◌∷◌, arith, length, inl, inr, List-cases,
}
use voldepass.GoMap.{lookup}
use voldepass.GoMap.Laws.{lookup-insert_self}
use voldepass.Domain.{Bytes, Time, DataType, RecordDto, Result, ok, err, Result-cases}
use voldepass.Client.Storage
use voldepass.Client.Storage.{StoredRecord}
use voldepass.Client.Json.{Json}
use voldepass.Client.Crypto.Random.{Random}
use voldepass.Client.Crypto.Aes.{Gcm, encrypt, decrypt}
use voldepass.Client.Crypto.RoundTrip.{decrypt-encrypt, encrypt-IsBox}
use voldepass.Client.Vault.{
  Sealed, with_sealed, blank, dirtied, encrypt_meta, seal_record, store_sealed, create, update, get,
  open_meta,
}

module _ (random : Random) (gcm : Gcm) {Payload : Type 0} (json : Json Payload)
    (data_key : Bytes) where
  -- A record that opens to this label and payload.
  abbrev pub Opens : Bytes → Payload → RecordDto → Type 0
  Opens meta payload dto =
      (plaintext : Bytes) × (decrypt random gcm data_key dto.ciphertext dto.nonce ≡ ok plaintext)
      × (json.unmarshal plaintext ≡ ok payload)
      × (open_meta random gcm json data_key dto ≡ ok meta)

  encrypt_meta-Opens :
      (meta : Bytes) (label : Bytes × Bytes) (dto : RecordDto) (s : random.State)
      → (encrypt_meta random gcm json data_key meta s).0 ≡ ok label
      → dto.encrypted_meta ≡ label.0
      → dto.meta_nonce ≡ label.1
      → open_meta random gcm json data_key dto ≡ ok meta
  unfolding encrypt_meta open_meta
  encrypt_meta-Opens [] label dto s h e f = ground arith
  encrypt_meta-Opens (b ∷ bs) label dto s h e f = elim (List-cases label.0) [
    | inl g ↦
        let (_, sealed, _) = encrypt-IsBox random gcm data_key (b ∷ bs) label s h in
        let tag = gcm.length-seal data_key label.1 (b ∷ bs) in
        absurd (ground (arith, ap length sealed, ap length g, tag))
    | inr (c, cs, g) ↦
        rw (e ∙ g, f) (rw (← g) (decrypt-encrypt random gcm data_key (b ∷ bs) label s h))
  ]

  seal_record-Opens :
      (meta : Bytes) (payload : Payload) (x : Sealed) (dto : RecordDto) (s : random.State)
      → (seal_record random gcm json data_key meta payload s).0 ≡ ok x
      → Opens meta payload (with_sealed x dto)
  unfolding seal_record
  seal_record-Opens meta payload x dto s h = elim (Result-cases (json.marshal payload)) [
    | inr (e, a) ↦ absurd (ground arith)
    | inl (plaintext, a) ↦ elim (Result-cases (encrypt random gcm data_key plaintext s).0) [
      | inr (e, b) ↦ absurd (ground arith)
      | inl (box, b) ↦
          let s' = (encrypt random gcm data_key plaintext s).1 in
          elim (Result-cases (encrypt_meta random gcm json data_key meta s').0) [
            | inr (e, c) ↦ absurd (ground arith)
            | inl (label, c) ↦
                let y : Sealed = record {
                  ciphertext = box.0;
                  nonce = box.1;
                  encrypted_meta = label.0;
                  meta_nonce = label.1;
                } in
                let same : y ≡ x = ground arith in
                subst (λ z. Opens meta payload (with_sealed z dto)) same
                  (
                    plaintext,
                    decrypt-encrypt random gcm data_key plaintext box s b,
                    json.unmarshal-marshal payload plaintext a,
                    encrypt_meta-Opens meta label (with_sealed y dto) s' c refl refl,
                  )
          ]
    ]
  ]

  get-Opens :
      (id : String) (meta : Bytes) (payload : Payload) (r : StoredRecord) (store : Storage.State)
      → lookup id store.records ≡ some r
      → Opens meta payload r.dto
      → get random gcm json data_key true id store ≡ ok (meta, r.dto, some payload)
  unfolding get Storage.get_record
  get-Opens id meta payload r store e (plaintext, opened, parsed, label) =
      rw (e, get, opened, parsed, label) refl

  -- The record is read under this id, as an edit, with this label and payload.
  abbrev pub IsRead : String → Time → Bytes → Payload → RecordDto → Storage.State → Type 0
  IsRead id now meta payload dto store =
      (get random gcm json data_key true id store ≡ ok (meta, dto, some payload))
      × (lookup id store.records ≡ some (dirtied now dto))

  store_sealed-IsRead :
      (now : Time) (meta : Bytes) (payload : Payload) (base dto : RecordDto) (store : Storage.State)
      (result : Result Sealed × random.State)
      → ((x : Sealed) → result.0 ≡ ok x → Opens meta payload (with_sealed x base))
      → (store_sealed random gcm json data_key now base store result).0 ≡ ok dto
      → IsRead base.id now meta payload dto
          (store_sealed random gcm json data_key now base store result).2
        × (dto.base_version ≡ base.base_version)
  unfolding Storage.put_record
  store_sealed-IsRead now meta payload base dto store (err e, s) opens h = absurd (ground arith)
  store_sealed-IsRead now meta payload base dto store (ok x, s) opens h =
      let stored = lookup-insert_self base.id (dirtied now (with_sealed x base)) store.records in
      let same : with_sealed x base ≡ dto = ground arith in
      let store' = Storage.put_record (dirtied now (with_sealed x base)) store in
      subst (λ d. IsRead base.id now meta payload d store' × (d.base_version ≡ base.base_version))
        same
        (
          (
            get-Opens base.id meta payload (dirtied now (with_sealed x base)) store' stored
                (opens x refl),
            stored,
          ),
          refl,
        )

  -- A record that Create stored is read by Get, under the id that Create gave it, with the label
  -- and the payload that were passed to Create, and it is an edit to be sent.
  pub get-create :
      (id : String) (now : Time) (data_type : DataType) (meta : Bytes) (payload : Payload)
      (s : random.State) (store : Storage.State) (dto : RecordDto)
      → (create random gcm json data_key id now data_type meta payload s store).0 ≡ ok dto
      → IsRead id now meta payload dto
          (create random gcm json data_key id now data_type meta payload s store).2
  unfolding create
  get-create id now data_type meta payload s store dto h =
      (store_sealed-IsRead now meta payload (blank id data_type) dto store
        (seal_record random gcm json data_key meta payload s)
        (λ x e. seal_record-Opens meta payload x (blank id data_type) s e) h).0

  -- The same after Update, of a record that stands under its id; the edit is based on the version
  -- of the server's that the record has.
  pub get-update :
      (now : Time) (id : String) (meta : Bytes) (payload : Payload) (s : random.State)
      (store : Storage.State) (r : StoredRecord) (dto : RecordDto)
      → lookup id store.records ≡ some r
      → r.id ≡ id
      → (update random gcm json data_key now id meta payload s store).0 ≡ ok dto
      → IsRead id now meta payload dto
          (update random gcm json data_key now id meta payload s store).2
        × (dto.base_version ≡ r.version)
  unfolding update Storage.get_record
  get-update now id meta payload s store r dto found own h =
      let base : RecordDto = record r.dto { base_version = r.version } in
      let sealed = seal_record random gcm json data_key meta payload s in
      let updated : update random gcm json data_key now id meta payload s store
          ≡ store_sealed random gcm json data_key now base store sealed =
        rw (found, update) refl in
      let stored : (store_sealed random gcm json data_key now base store sealed).0 ≡ ok dto =
        rw (← updated) h in
      let (read, based) =
        store_sealed-IsRead now meta payload base dto store sealed
          (λ x e. seal_record-Opens meta payload x base s e) stored in
      subst (λ z. IsRead id now meta payload dto z.2 × (dto.base_version ≡ r.version)) (sym updated)
        (
          subst
              (λ k.
                IsRead k now meta payload dto
                  (store_sealed random gcm json data_key now base store sealed).2)
              own read,
          based,
        )
