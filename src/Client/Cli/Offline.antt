-- ===== src/Client/Cli/Offline.antt =====
-- A record that is added while the server cannot be reached for the synchronisation.
use voldepass.Prelude.{
  suc, ◌≡◌, refl, sym, ap, subst, ◌∙◌, String, true, none, some, List, [], inl, inr, arith,
}
use voldepass.Domain.{Bytes, Time, DataType, RecordDto, Result, ok, err, Error, Result-cases}
use voldepass.Client.Storage
use voldepass.Client.Storage.{current_format_version}
use voldepass.Client.Storage.File.{Call, Disk, seal_state, load}
use voldepass.Client.Storage.File.Crash.{load-seal_state}
use voldepass.Client.AuthFlow
use voldepass.Client.Session
use voldepass.Client.Vault
use voldepass.Client.Vault.RoundTrip.{get-create}
use voldepass.Client.Tui.Form.{Payload}
use voldepass.Client.Syncer.Run.{World}
use voldepass.Client.Cli.{
  Setup, Env, transport, Bundle, bundle, Machine, leave, open_session, load_session, read_file,
  close,
}
use voldepass.Client.Cli.Flags.{PayloadFlags, build_payload}
use voldepass.Client.Cli.Commands.{add_record, run_add, get_record, run_get}
use voldepass.Client.Cli.Kept.{sync-offline, save-ok, get_untargeted}

module _ (c : Setup) where
  -- The end of Close, from the synchronisation on.
  closed_after :
      Env
      → Bundle c
      → Result (List RecordDto) × World (transport c) c.uuid
      → Result (Unit {0}) × Machine c
  closed_after env b (synced, world) =
      let b1 : Bundle c = record b { world = world } in
      let (w, b') =
        Session.finish c.random c.gcm c.state_json c.envelope_json (transport c) c.uuid env.system
          b1 in
      let ended : Result (Unit {0}) × List Disk × Bundle c = elim synced [
        | ok conflicts ↦ (w.result, w.passed, b')
        | err e ↦ elim w.result [
          | ok _ ↦ (err e, w.passed, b')
          | err save_error ↦ (err save_error, w.passed, b')
        ]
      ] in
      (ended.0, leave c ended.2)

  close-offline :
      (env : Env) (b : Bundle c) (e : Error) (raw : Bytes)
      → b.world.1.store.pending_push ≡ []
      → (c.pull b.world.1.store.last_sync_version b.world.0).0 ≡ err e
      → ((call : Call) → env.system.failure call ≡ none)
      → (seal_state c.random c.gcm c.state_json c.envelope_json b.data_key b.world.1.store
          b.source).0
        ≡ ok raw
      → ((close c env b).0 ≡ err e) × ((close c env b).1.disk.target ≡ some raw)
  unfolding close Session.close closed_after Session.finish
  close-offline env b e raw idle down calls sealed =
      let server' = (c.pull b.world.1.store.last_sync_version b.world.0).1 in
      let stopped =
        sync-offline (transport c) c.uuid 4 100 env.now b.world.0 b.world.1 e idle down in
      let split : close c env b ≡ closed_after env b (err e, (server', b.world.1)) =
        ap (closed_after env b) stopped in
      let (written, kept) =
        save-ok c.random c.gcm c.state_json c.envelope_json env.system b.data_key raw
          b.world.1.store b.disk b.source calls sealed in
      subst (λ (p : Result (Unit {0}) × Machine c). (p.0 ≡ err e) × (p.1.disk.target ≡ some raw))
        (sym split) (rw (closed_after, Session.finish, written) (refl, kept))

  -- What Create leaves as it is, and what it makes of a record.
  create_cases :
      (b : Bundle c) (now : Time) (data_type : DataType) (meta : Bytes) (payload : Payload)
      (dto : RecordDto)
      → let store = b.world.1.store in
        let (created, source, store') =
          Vault.create c.random c.gcm
            (c.json data_type)
            b.data_key
            (c.uuid b.world.1.uuids)
            now
            data_type
            meta
            payload
            b.source
            store in
        created ≡ ok dto
        → (store'.pending_push ≡ store.pending_push)
          × (store'.last_sync_version ≡ store.last_sync_version)
          × (dto.data_type ≡ data_type)
          × (dto.id ≡ c.uuid b.world.1.uuids)
  unfolding Vault.create Storage.put_record
  create_cases b now data_type meta payload dto h =
      let sealed =
        Vault.seal_record c.random c.gcm (c.json data_type) b.data_key meta payload b.source in
      elim (Result-cases sealed.0) [
        | inr (e, f) ↦ absurd (ground arith)
        | inl (x, f) ↦ (ground arith, ground arith, ground arith, ground arith)
      ]

  -- The file opens as a session of its own.
  reopened :
      (env : Env) (login : String) (password raw : Bytes) (m : Machine c) (data_key : Bytes)
      (server : c.auth.Server) (store loaded : Storage.State)
      → AuthFlow.login c.random c.gcm c.kdf c.auth login password
          (c.new m.server, Storage.new_empty_state)
        ≡ (ok data_key, (server, store))
      → env.read_failure ≡ none
      → m.disk.target ≡ some raw
      → load c.random c.gcm c.state_json c.envelope_json data_key (ok (some raw)) store ≡ ok loaded
      → (open_session c env login password m).0
        ≡ ok (bundle c loaded data_key (record m { server = server }))
  unfolding open_session load_session read_file
  reopened env login password raw m data_key server store loaded logged readable there opens =
      let entered : open_session c env login password m
          ≡ load_session c env (ok data_key, server, store) m =
        ap
          (λ (p : Result Bytes × AuthFlow.World c.random c.gcm c.kdf c.auth).
            load_session c env (p.0, p.1.0, p.1.1) m)
          logged in
      let file : read_file env.read_failure m.disk.target ≡ ok (some raw) =
        rw (readable, there) refl in
      ap (λ (p : Result (Bundle c) × Machine c). p.0) entered ∙ rw (load_session, file, opens) refl

  -- A record that is added while the synchronisation finds no server is not lost: add reports the
  -- error, but the record is in the file. When the server can be reached again, get prints the label
  -- and the payload that were added, if the login gives the same data key and the file is still the
  -- one that add left. There must be no batch to be sent again, and the write has to succeed.
  pub run_get-run_add :
      (env later : Env) (login : String) (password : Bytes) (data_type : DataType)
      (f : PayloadFlags) (m m2 : Machine c) (b : Bundle c) (payload : Payload) (dto : RecordDto)
      (e : Error) (raw : Bytes) (server : c.auth.Server) (store : Storage.State)
      → (open_session c env login password m).0 ≡ ok b
      → build_payload data_type f ≡ ok payload
      → let (created, source, edited) =
          Vault.create c.random c.gcm
            (c.json data_type)
            b.data_key
            (c.uuid b.world.1.uuids)
            env.now
            data_type
            f.meta
            payload
            b.source
            b.world.1.store in
        created ≡ ok dto
        → b.world.1.store.pending_push ≡ []
        → (c.pull b.world.1.store.last_sync_version b.world.0).0 ≡ err e
        → ((call : Call) → env.system.failure call ≡ none)
        → (seal_state c.random c.gcm c.state_json c.envelope_json b.data_key edited source).0
          ≡ ok raw
        → m2.disk.target ≡ (run_add c env login password data_type f m).1.disk.target
        → later.read_failure ≡ none
        → AuthFlow.login c.random c.gcm c.kdf c.auth login password
            (c.new m2.server, Storage.new_empty_state)
          ≡ (ok b.data_key, (server, store))
        → ((run_add c env login password data_type f m).0 ≡ err e)
          × ((run_get c later login password dto.id m2).0 ≡ some (f.meta, payload))
  unfolding run_add add_record run_get get_record Vault.get Storage.get_record
  run_get-run_add env later login password data_type f m m2 b payload dto e raw server store opened
        built created idle down calls sealed same_disk readable logged =
      let result =
        Vault.create c.random c.gcm (c.json data_type) b.data_key (c.uuid b.world.1.uuids) env.now
          data_type f.meta payload b.source b.world.1.store in
      let b1 : Bundle c = record b {
        world = (b.world.0, record { store = result.2; uuids = suc b.world.1.uuids });
        source = result.1;
      } in
      let (kept, cursor, typed, named) =
        create_cases b env.now data_type f.meta payload dto created in
      let (failed, written) =
        close-offline env b1 e raw (kept ∙ idle)
          (subst (λ v. (c.pull v b.world.0).0 ≡ err e) (sym cursor) down) calls sealed in
      let added : ((run_add c env login password data_type f m).0 ≡ err e)
          × ((run_add c env login password data_type f m).1.disk.target ≡ some raw) =
        rw (run_add, opened, built, add_record, created) (rw failed refl, written) in
      let loaded : Storage.State = record result.2 { version = current_format_version } in
      let m2' : Machine c = record m2 { server = server } in
      let again : (open_session c later login password m2).0 ≡ ok (bundle c loaded b.data_key m2') =
        reopened later login password raw m2 b.data_key server store loaded logged readable
          (same_disk ∙ added.1)
          (load-seal_state c.random c.gcm c.state_json c.envelope_json b.data_key raw result.2 store
            result.1 sealed) in
      let got0 : Vault.get c.random c.gcm (c.json data_type) b.data_key true dto.id loaded
          ≡ ok (f.meta, dto, some payload) =
        subst
          (λ id.
            Vault.get c.random c.gcm (c.json data_type) b.data_key true id loaded
            ≡ ok (f.meta, dto, some payload))
          (sym named)
          (get-create c.random c.gcm (c.json data_type) b.data_key (c.uuid b.world.1.uuids) env.now
            data_type f.meta payload b.source b.world.1.store dto created).0 in
      let first =
        get_untargeted c.random c.gcm (c.json data_type) (c.json 0) b.data_key dto.id loaded f.meta
          dto (some payload) got0 in
      let second : Vault.get c.random c.gcm (c.json dto.data_type) b.data_key true dto.id loaded
          ≡ ok (f.meta, dto, some payload) =
        subst
          (λ t.
            Vault.get c.random c.gcm (c.json t) b.data_key true dto.id loaded
            ≡ ok (f.meta, dto, some payload))
          (sym typed) got0 in
      let shown : (get_record c later dto.id (bundle c loaded b.data_key m2')).0
          ≡ some (f.meta, payload) =
        rw (get_record, first, second) refl in
      (added.0, rw (run_get, again) shown)
