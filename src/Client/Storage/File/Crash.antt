-- ===== src/Client/Storage/File/Crash.antt =====
-- What a crash or an error during Save leaves, and what Load makes of it.
use voldepass.Prelude.{◌≡◌, refl, ◌⊎◌, inl, inr, Option, none, some, All, All-map, arith}
use voldepass.Domain.{Bytes, ok, err, Error, Result-cases}
use voldepass.Client.Storage
use voldepass.Client.Storage.{current_format_version}
use voldepass.Client.Storage.File.{
  FileEnvelope, Disk, create_temp, write_temp, sync_temp, close_temp, rename_temp, System, Written,
  finish_write, atomic_write_file, migrate, load, seal_state, save,
}
use voldepass.Client.Json.{Json}
use voldepass.Client.Crypto.Random.{Random}
use voldepass.Client.Crypto.Aes.{Gcm, encrypt}
use voldepass.Client.Crypto.RoundTrip.{decrypt-encrypt}

-- A disk on which the file is the old one or the new one, whole.
abbrev pub IsWhole : Option Bytes → Bytes → Disk → Type 0
IsWhole old content d = (d.target ≡ old) ⊎ (d.target ≡ some content)

-- A write that succeeds leaves the new file, and one that fails the old one; at each moment the file is one of the two.
abbrev pub IsAtomic : Option Bytes → Bytes → Written → Type 0
IsAtomic old content w =
    All (IsWhole old content) w.passed
    × (((w.result ≡ ok tt) × (w.disk.target ≡ some content))
        ⊎ ((e : Error) × (w.result ≡ err e) × (w.disk.target ≡ old)))

step-cases {κ} :
    (P : Written → Type κ) (o : Option Error) (f : Error → Written) (w : Written)
    → ((e : Error) → P (f e))
    → P w
    → P (elim o [ some e ↦ f e | none ↦ w ])
step-cases P (some e) f w h g = h e
step-cases P none f w h g = g

atomic_write_file-IsAtomic :
    (system : System) (content : Bytes) (d : Disk)
    → IsAtomic d.target content (atomic_write_file system content d)
unfolding atomic_write_file finish_write
atomic_write_file-IsAtomic system content d =
    let P = IsAtomic d.target content in
    let old : IsWhole d.target content d = inl refl in
    step-cases P (system.failure create_temp) _ _ (λ e. (tt, inr (e, refl, refl)))
      (step-cases P (system.failure write_temp) _ _ (λ e. ((old, (old, tt)), inr (e, refl, refl)))
        (step-cases P (system.failure sync_temp) _ _ (λ e. ((old, (old, tt)), inr (e, refl, refl)))
          (step-cases P (system.failure close_temp) _ _
            (λ e. ((old, (old, tt)), inr (e, refl, refl)))
            (step-cases P (system.failure rename_temp) _ _
              (λ e. ((old, (old, tt)), inr (e, refl, refl)))
              ((old, (old, (inr refl, tt))), inl (refl, refl))))))

module _ (random : Random) (gcm : Gcm) (state_json : Json Storage.State)
    (envelope_json : Json FileEnvelope) where
  -- What is written opens again, as the state under the current version of the format.
  pub load-seal_state :
      (data_key raw : Bytes) (s empty : Storage.State) (r : random.State)
      → (seal_state random gcm state_json envelope_json data_key s r).0 ≡ ok raw
      → load random gcm state_json envelope_json data_key (ok (some raw)) empty
        ≡ ok (record s { version = current_format_version })
  unfolding seal_state load migrate
  load-seal_state data_key raw s empty r h =
      let s' : Storage.State = record s { version = current_format_version } in
      elim (Result-cases (state_json.marshal s')) [
        | inr (e, m) ↦ absurd (ground arith)
        | inl (plaintext, m) ↦ elim (Result-cases (encrypt random gcm data_key plaintext r).0) [
          | inr (e, f) ↦ absurd (ground arith)
          | inl (box, f) ↦
              let opened = decrypt-encrypt random gcm data_key plaintext box r f in
              let written : envelope_json.marshal (record { nonce = box.1; ciphertext = box.0 })
                  ≡ ok raw =
                ground arith in
              let unpacked = envelope_json.unmarshal-marshal _ raw written in
              let read = state_json.unmarshal-marshal s' plaintext m in
              rw (unpacked, opened, read) refl
        ]
      ]

  -- The state that Load makes of a file.
  abbrev pub Loads : Bytes → Storage.State → Option Bytes → Storage.State → Type 0
  Loads data_key empty raw s =
      load random gcm state_json envelope_json data_key (ok raw) empty ≡ ok s

  -- If the file opens as the old state before a Save, then after each of the calls that Save makes the
  -- file opens, as the old state or as the one that is saved; so wherever it is cut short. If Save
  -- succeeds the file opens as the one that is saved, under the current version of the format, and if
  -- it fails, as the old one. What a write that fails leaves in the temporary file does not matter.
  pub save-load :
      (system : System) (data_key : Bytes) (s old empty : Storage.State) (d : Disk)
      (r : random.State)
      → Loads data_key empty d.target old
      → let w = (save random gcm state_json envelope_json system data_key s d r).0 in
        let new : Storage.State = record s { version = current_format_version } in
        All
          (λ (x : Disk). Loads data_key empty x.target old ⊎ Loads data_key empty x.target new)
          w.passed
        × (((w.result ≡ ok tt) × Loads data_key empty w.disk.target new)
            ⊎ ((e : Error) × (w.result ≡ err e) × Loads data_key empty w.disk.target old))
  unfolding save
  save-load system data_key s old empty d r before =
      let new : Storage.State = record s { version = current_format_version } in
      let sealed = seal_state random gcm state_json envelope_json data_key s r in
      elim (Result-cases sealed.0) [
        | inr (e, h) ↦ rw (save, h) (tt, inr (e, refl, before))
        | inl (raw, h) ↦
            let opened = load-seal_state data_key raw s empty r h in
            let (moments, ended) = atomic_write_file-IsAtomic system raw d in
            let whole : (x : Disk)
                → IsWhole d.target raw x
                → Loads data_key empty x.target old ⊎ Loads data_key empty x.target new =
              λ x w. elim w [ inl e ↦ inl (rw e before) | inr e ↦ inr (rw e opened) ] in
            rw (save, h)
              (
                All-map _ _ (atomic_write_file system raw d).passed whole moments,
                elim ended [
                  | inl (done, e) ↦ inl (done, rw e opened)
                  | inr (x, failed, e) ↦ inr (x, failed, rw e before)
                ],
              )
      ]
