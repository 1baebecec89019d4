-- ===== src/Client/Cli/Transfer.antt =====
-- internal/client/cli: sync.go, export.go and import.go.
use voldepass.Prelude.{ℕ, String, Option, none, some, List, map, length}
use voldepass.Domain.{Bytes, RecordDto, Result, ok, err, Error, ◌>>=◌}
use voldepass.Client.Crypto.Bundle.{export_data, import_data}
use voldepass.Client.Session
use voldepass.Client.Session.{Syncer}
use voldepass.Client.Vault
use voldepass.Client.Cli.{Setup, Env, transport, Bundle, Machine, leave, open_session}
use voldepass.Client.Cli.Commands.{with_session, closing, with_store, run_syncer}

module _ (c : Setup) where
  -- runSync, which prints the ids of the conflicts
  unfoldable pub run_sync : Env → String → Bytes → Machine c → Result (List String) × Machine c
  unfolding run_syncer
  run_sync env login password m = with_session c (open_session c env login password m) λ b.
      let (synced, b') = run_syncer c env b in
      elim synced [
        | err e ↦ (err e, leave c b')
        | ok conflicts ↦ closing c env (map (λ (dto : RecordDto). dto.id) conflicts) b'
      ]

  -- runExport: what is written to the output, if that does not fail, and the number of records
  unfoldable pub run_export :
      Env → String → Bytes → Option Error → Machine c → Option Bytes × Result ℕ × Machine c
  run_export env login password write_failure m =
      let (opened, m') = open_session c env login password m in
      elim opened [
        | err e ↦ (none, err e, m')
        | ok b ↦
            let (kdf_salt, kdf_params, wrapped_data_key) =
              Session.profile c.random c.gcm c.state_json c.envelope_json (transport c) c.uuid b in
            let records = Vault.list b.world.1.store in
            let (exported, source) =
              export_data c.random c.gcm c.inner_json c.bundle_json b.data_key records kdf_salt
                kdf_params wrapped_data_key b.source in
            let b' : Bundle c = record b { source = source } in
            elim exported [
              | err e ↦ (none, err e, leave c b')
              | ok bytes ↦ elim write_failure [
                | some e ↦ (none, err e, leave c b')
                | none ↦
                    let (closed, m) = closing c env (length records) b' in (some bytes, closed, m)
              ]
            ]
      ]

  -- runImport, from what os.ReadFile gives, with the number of records
  unfoldable pub run_import : Env → String → Bytes → Result Bytes → Machine c → Result ℕ × Machine c
  run_import env login password input m = with_session c (open_session c env login password m) λ b.
      elim (input
        >>= (λ raw. import_data c.random c.gcm c.inner_json c.bundle_json raw b.data_key)) [
          | err e ↦ (err e, leave c b)
          | ok result ↦
              closing c env (length result.records)
                (with_store c (Vault.import_records env.now result.records b.world.1.store) b)
        ]
