-- ===== src/Client/Cli/Commands.antt =====
-- internal/client/cli/vault.go, and what the commands share. What a
-- command prints is given as data. Only what depends on the result of a command is printed by most;
-- get and list print before they close, and `some` holds what they have printed.
use voldepass.Prelude.{ℕ, suc, String, false, true, Option, none, some, List, map, length}
use voldepass.Domain.{Bytes, DataType, RecordDto, Result, ok, err, ◌>>=◌}
use voldepass.Client.Storage
use voldepass.Client.Syncer.Run.{sync}
use voldepass.Client.Vault
use voldepass.Client.Tui.Form.{Payload}
use voldepass.Client.Cli.{
  Setup, Env, transport, Bundle, Machine, leave, open_session, close, default_syncer,
}
use voldepass.Client.Cli.Flags.{PayloadFlags, build_payload, parse_data_type, require_login}

module _ (c : Setup) where
  -- A command that goes on with a session, if it opens.
  abbrev pub with_session {ℓ} :
      {A : Type ℓ}
      → Result (Bundle c) × Machine c
      → (Bundle c → Result A × Machine c)
      → Result A × Machine c
  with_session (err e, m) f = (err e, m)
  with_session (ok b, m) f = f b

  -- Close, and then the result of the command.
  abbrev pub closing {ℓ} : {A : Type ℓ} → Env → A → Bundle c → Result A × Machine c
  closing env a b = let (closed, m) = close c env b in (closed >>= (λ _. ok a), m)

  abbrev pub with_store : Storage.State → Bundle c → Bundle c
  with_store store b = record b { world = (b.world.0, record b.world.1 { store = store }) }

  -- runAdd, from the payload on: Create draws an id.
  unfoldable pub add_record :
      Env → DataType → Bytes → Payload → Bundle c → Result String × Machine c
  add_record env data_type meta payload b =
      let l = b.world.1 in
      let (created, source, store) =
        Vault.create c.random c.gcm (c.json data_type) b.data_key (c.uuid l.uuids) env.now data_type
          meta payload b.source l.store in
      let b' : Bundle c = record b {
        world = (b.world.0, record { store = store; uuids = suc l.uuids });
        source = source;
      } in
      elim created [ err e ↦ (err e, leave c b') | ok dto ↦ closing env dto.id b' ]

  -- runAdd, which prints the id
  unfoldable pub run_add :
      Env → String → Bytes → DataType → PayloadFlags → Machine c → Result String × Machine c
  unfolding add_record
  run_add env login password data_type f m = with_session (open_session c env login password m) λ b.
      elim (build_payload data_type f) [
        | err e ↦ (err e, leave c b)
        | ok payload ↦ add_record env data_type f.meta payload b
      ]

  -- runGet, from the session on, with the label and the payload that it prints
  unfoldable pub get_record :
      Env → String → Bundle c → Option (Bytes × Payload) × Result (Unit {0}) × Machine c
  get_record env id b =
      let store = b.world.1.store in
      elim (Vault.get c.random c.gcm (c.json 0) b.data_key false id store) [
        | err e ↦ (none, err e, leave c b)
        | ok (_, dto, _) ↦
            elim (Vault.get c.random c.gcm (c.json dto.data_type) b.data_key true id store) [
              | ok (meta, _, some payload) ↦
                  let (closed, m) = close c env b in (some (meta, payload), closed, m)
              | ok (meta, _, none) ↦ (none, ok tt, leave c b)
              | err e ↦ (none, err e, leave c b)
            ]
      ]

  -- runGet
  unfoldable pub run_get :
      Env
      → String
      → Bytes
      → String
      → Machine c
      → Option (Bytes × Payload) × Result (Unit {0}) × Machine c
  unfolding get_record
  run_get env login password id m =
      let (opened, m') = open_session c env login password m in
      elim opened [ err e ↦ (none, err e, m') | ok b ↦ get_record env id b ]

  -- A line of runList: the label is missing if it cannot be decrypted.
  abbrev pub Line : Type 0
  Line = String × DataType × Option Bytes

  abbrev pub label : Result Bytes → Option Bytes
  label (ok meta) = some meta
  label (err e) = none

  -- The lines of runList
  unfoldable pub lines : Bundle c → List Line
  lines b =
      map
        (λ (dto : RecordDto). (
          dto.id,
          dto.data_type,
          label (Vault.get_meta c.random c.gcm (c.json 0) b.data_key dto.id b.world.1.store),
        ))
        (Vault.list b.world.1.store)

  -- The synchronisation that a command asks for.
  unfoldable pub run_syncer : Env → Bundle c → Result (List RecordDto) × Bundle c
  run_syncer env b =
      let y = default_syncer env.now in
      let (synced, world) = sync (transport c) c.uuid y.max_iterations y.chunk_size y.now b.world in
      (synced, record b { world = world })

  -- runList, with the number of conflicts that it warns of, and the lines
  unfoldable pub run_list :
      Env → String → Bytes → Machine c → Option (ℕ × List Line) × Result (Unit {0}) × Machine c
  unfolding lines run_syncer
  run_list env login password m =
      let (opened, m') = open_session c env login password m in
      elim opened [
        | err e ↦ (none, err e, m')
        | ok b ↦
            let (synced, b') = run_syncer env b in
            elim synced [
              | err e ↦ (none, err e, leave c b')
              | ok conflicts ↦
                  let (closed, m) = close c env b' in (some (length conflicts, lines b'), closed, m)
            ]
      ]

  -- runEdit, from the payload on: the type of the record is not looked at.
  unfoldable pub edit_record :
      Env → String → DataType → Bytes → Payload → Bundle c → Result (Unit {0}) × Machine c
  edit_record env id data_type meta payload b =
      let (updated, source, store) =
        Vault.update c.random c.gcm (c.json data_type) b.data_key env.now id meta payload b.source
          b.world.1.store in
      let b' : Bundle c = record (with_store store b) { source = source } in
      elim updated [ err e ↦ (err e, leave c b') | ok _ ↦ closing env tt b' ]

  -- runEdit
  unfoldable pub run_edit :
      Env
      → String
      → Bytes
      → String
      → DataType
      → PayloadFlags
      → Machine c
      → Result (Unit {0}) × Machine c
  unfolding edit_record
  run_edit env login password id data_type f m =
      with_session (open_session c env login password m) λ b. elim (build_payload data_type f) [
        | err e ↦ (err e, leave c b)
        | ok payload ↦ edit_record env id data_type f.meta payload b
      ]

  -- runDelete
  unfoldable pub run_delete :
      Env → String → Bytes → String → Machine c → Result (Unit {0}) × Machine c
  run_delete env login password id m = with_session (open_session c env login password m) λ b.
      let (deleted, store) =
        Vault.delete c.random c.gcm (c.json 0) b.data_key env.now id b.world.1.store in
      elim deleted [ err e ↦ (err e, leave c b) | ok _ ↦ closing env tt (with_store store b) ]

  -- The RunE functions: a command runs once the login is there and the password is read.
  abbrev pub with_login {ℓ} :
      {A : Type ℓ}
      → String
      → Result Bytes
      → (String → Bytes → Machine c → Result A × Machine c)
      → Machine c
      → Result A × Machine c
  with_login flag password f m = elim (require_login flag) [
    | err e ↦ (err e, m)
    | ok login ↦ elim password [ err e ↦ (err e, m) | ok p ↦ f login p m ]
  ]

  -- RunE of newAddCmd
  unfoldable pub add_command :
      Env → String → Result Bytes → String → PayloadFlags → Machine c → Result String × Machine c
  unfolding run_add
  add_command env flag password type_flag f m = elim (require_login flag) [
    | err e ↦ (err e, m)
    | ok login ↦ elim (parse_data_type type_flag) [
      | err e ↦ (err e, m)
      | ok t ↦ with_login flag password (λ login p. run_add env login p t f) m
    ]
  ]

  -- RunE of newEditCmd
  unfoldable pub edit_command :
      Env
      → String
      → Result Bytes
      → String
      → String
      → PayloadFlags
      → Machine c
      → Result (Unit {0}) × Machine c
  unfolding run_edit
  edit_command env flag password id type_flag f m = elim (require_login flag) [
    | err e ↦ (err e, m)
    | ok login ↦ elim (parse_data_type type_flag) [
      | err e ↦ (err e, m)
      | ok t ↦ with_login flag password (λ login p. run_edit env login p id t f) m
    ]
  ]
