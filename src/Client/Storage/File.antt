-- ===== src/Client/Storage/File.antt =====
-- internal/client/storage/file.go: the encrypted file of the local state. The disk is the file and the
-- temporary file beside it. The calls of the operating system are given: which of them fails, what a
-- write that fails leaves, and what reading gives. The JSON of a state and of an envelope are parameters.
pub mod Crash
use voldepass.Prelude.{◌+◌, ◌++◌, Option, none, some, List, [], ◌∷◌, eqb, if◌then◌else◌}
use voldepass.Domain.{Bytes, int64_zero, Result, ok, err, Error, ◌>>=◌}
use voldepass.Client.Storage
use voldepass.Client.Storage.{current_format_version}
use voldepass.Client.Json.{Json}
use voldepass.Client.Crypto.Random.{Random, Draw, and_then}
use voldepass.Client.Crypto.Aes.{Gcm, encrypt, decrypt}

-- fileEnvelope
pub record FileEnvelope : Type 0 where
  pub nonce : Bytes
  pub ciphertext : Bytes

pub record Disk : Type 0 where
  pub target : Option Bytes
  pub temp : Option Bytes

-- The calls of atomicWriteFile.
pub data Call : Type 0 where
  create_temp write_temp sync_temp close_temp rename_temp : Call

-- How the calls go: the error of one that fails, and what a failed write has written.
pub record System : Type 0 where
  pub failure : Call → Option Error
  pub torn : Bytes → Bytes

-- What atomicWriteFile returns, the disk after each of its calls, and the disk at its end.
pub record Written : Type 0 where
  pub result : Result (Unit {0})
  pub passed : List Disk
  pub disk : Disk

-- An early return: the temporary file is removed.
abbrev pub give_up : Error → List Disk → Disk → Written
give_up e passed d = record { result = err e; passed = passed; disk = record d { temp = none } }

-- The end of atomicWriteFile, once the temporary file holds the data.
unfoldable pub finish_write : System → Bytes → List Disk → Disk → Written
finish_write system content passed d = elim (system.failure sync_temp) [
  | some e ↦ give_up e passed d
  | none ↦ elim (system.failure close_temp) [
    | some e ↦ give_up e passed d
    | none ↦ elim (system.failure rename_temp) [
      | some e ↦ give_up e passed d
      | none ↦
          let renamed : Disk = record { target = some content; temp = none } in
          record { result = ok tt; passed = passed ++ renamed ∷ []; disk = renamed }
    ]
  ]
]

-- atomicWriteFile
unfoldable pub atomic_write_file : System → Bytes → Disk → Written
unfolding finish_write
atomic_write_file system content d = elim (system.failure create_temp) [
  | some e ↦ record { result = err e; passed = []; disk = d }
  | none ↦
      let created : Disk = record d { temp = some [] } in
      elim (system.failure write_temp) [
        | some e ↦
            let part : Disk = record d { temp = some (system.torn content) } in
            give_up e (created ∷ part ∷ []) part
        | none ↦
            let full : Disk = record d { temp = some content } in
            finish_write system content (created ∷ full ∷ []) full
      ]
]

-- migrate
unfoldable pub migrate : Storage.State → Storage.State
migrate s = if eqb s.version int64_zero then record s { version = int64_zero + 1 } else s

module _ (random : Random) (gcm : Gcm) (state_json : Json Storage.State)
    (envelope_json : Json FileEnvelope) where
  -- Load, from what os.ReadFile gives: none if there is no file.
  unfoldable pub load : Bytes → Result (Option Bytes) → Storage.State → Result Storage.State
  unfolding migrate
  load data_key (err e) s = err e
  load data_key (ok none) s = ok s
  load data_key (ok (some raw)) s = do
    envelope ← envelope_json.unmarshal raw
    plaintext ← decrypt random gcm data_key envelope.ciphertext envelope.nonce
    state ← state_json.unmarshal plaintext
    ok (migrate state)

  -- What Save writes.
  unfoldable pub seal_state : Bytes → Storage.State → Draw random Bytes
  seal_state data_key s r =
      elim (state_json.marshal (record s { version = current_format_version })) [
        | err e ↦ (err e, r)
        | ok plaintext ↦
            and_then random (encrypt random gcm data_key plaintext)
              (λ box r'. (envelope_json.marshal (record { nonce = box.1; ciphertext = box.0 }), r'))
              r
      ]

  -- Save
  unfoldable pub save :
      System → Bytes → Storage.State → Disk → random.State → Written × random.State
  unfolding seal_state atomic_write_file
  save system data_key s d r =
      let (sealed, r') = seal_state data_key s r in
      elim sealed [
        | err e ↦ (record { result = err e; passed = []; disk = d }, r')
        | ok raw ↦ (atomic_write_file system raw d, r')
      ]
