-- ===== src/Client/Cli/Renewed.antt =====
-- What logout and register leave in the file.
use voldepass.Prelude.{◌≡◌, refl, ◌⊎◌, inl, inr, String, none, arith, Option-cases}
use voldepass.Domain.{Bytes, ok, err, Error, Result-cases}
use voldepass.Client.Storage
use voldepass.Client.Storage.{current_format_version}
use voldepass.Client.Storage.File.{
  FileEnvelope, Disk, System, create_temp, write_temp, sync_temp, close_temp, rename_temp,
  finish_write, atomic_write_file, seal_state, save, Written,
}
use voldepass.Client.Storage.File.Crash.{Loads}
use voldepass.Client.Json.{Json}
use voldepass.Client.Crypto.Random.{Random}
use voldepass.Client.Crypto.Aes.{Gcm}
use voldepass.Client.Crypto.Strength.{Unicode}
use voldepass.Client.AuthFlow
use voldepass.Client.Session
use voldepass.Client.Session.Closing.{close-IsClosed}
use voldepass.Client.Syncer.Run.{sync}
use voldepass.Client.Cli.{
  Setup, Env, transport, Bundle, Machine, open_session, open_new_session, close, default_syncer,
}
use voldepass.Client.Cli.Accounts.{run_logout, run_register}

-- Two writes of the same end alike, and leave the same file if they succeed.
abbrev AreAlike : Written → Written → Type 0
AreAlike v w =
    (v.result ≡ w.result) × ((v.disk.target ≡ w.disk.target) ⊎ ((e : Error) × (v.result ≡ err e)))

atomic_write_file-AreAlike :
    (system : System) (content : Bytes) (d1 d2 : Disk)
    → AreAlike (atomic_write_file system content d1) (atomic_write_file system content d2)
unfolding atomic_write_file finish_write
atomic_write_file-AreAlike system content d1 d2 = elim (Option-cases (system.failure create_temp)) [
  | inr (x, e) ↦ rw (atomic_write_file, e) (refl, inr (x, refl))
  | inl e ↦ elim (Option-cases (system.failure write_temp)) [
    | inr (x, f) ↦ rw (atomic_write_file, e, f) (refl, inr (x, refl))
    | inl f ↦ elim (Option-cases (system.failure sync_temp)) [
      | inr (x, g) ↦ rw (atomic_write_file, e, f, finish_write, g) (refl, inr (x, refl))
      | inl g ↦ elim (Option-cases (system.failure close_temp)) [
        | inr (x, h) ↦ rw (atomic_write_file, e, f, finish_write, g, h) (refl, inr (x, refl))
        | inl h ↦ elim (Option-cases (system.failure rename_temp)) [
          | inr (x, k) ↦ rw (atomic_write_file, e, f, finish_write, g, h, k) (refl, inr (x, refl))
          | inl k ↦ rw (atomic_write_file, e, f, finish_write, g, h, k) (refl, inl refl)
        ]
      ]
    ]
  ]
]

save-AreAlike :
    (random : Random) (gcm : Gcm) (state_json : Json Storage.State)
    (envelope_json : Json FileEnvelope)
    → (system : System) (data_key : Bytes) (s : Storage.State) (d1 d2 : Disk) (r : random.State)
    → AreAlike
        (save random gcm state_json envelope_json system data_key s d1 r).0
        (save random gcm state_json envelope_json system data_key s d2 r).0
unfolding save
save-AreAlike random gcm state_json envelope_json system data_key s d1 d2 r =
    elim (Result-cases (seal_state random gcm state_json envelope_json data_key s r).0) [
      | inr (e, h) ↦ rw (save, h) (refl, inr (e, refl))
      | inl (raw, h) ↦ rw (save, h) (atomic_write_file-AreAlike system raw d1 d2)
    ]

module _ (c : Setup) where
  -- The bundle with another file.
  abbrev on : Disk → Bundle c → Bundle c
  on d b = record b { disk = d }

  close_on :
      (env : Env) (b : Bundle c) (d1 d2 : Disk)
      → (close c env (on d1 b)).0 ≡ ok tt
      → ((close c env (on d2 b)).0 ≡ ok tt)
        × ((close c env (on d1 b)).1.disk.target ≡ (close c env (on d2 b)).1.disk.target)
  unfolding close Session.close Session.finish
  close_on env b d1 d2 h =
      let y = default_syncer env.now in
      let synced = sync (transport c) c.uuid y.max_iterations y.chunk_size y.now b.world in
      let store = synced.1.1.store in
      let v =
        (save c.random c.gcm c.state_json c.envelope_json env.system b.data_key store d1
          b.source).0 in
      let (same, files) =
        save-AreAlike c.random c.gcm c.state_json c.envelope_json env.system b.data_key store d1 d2
          b.source in
      elim (Result-cases synced.0) [
        | inr (e, f) ↦ elim (Result-cases v.result) [
          | inr (x, g) ↦ absurd (ground arith)
          | inl (u, g) ↦ absurd (ground arith)
        ]
        | inl (conflicts, f) ↦ elim files [
          | inr (x, g) ↦ absurd (ground arith)
          | inl g ↦ (ground arith, rw (close, Session.close, f) g)
        ]
      ]

  open_new_session_on :
      (login : String) (password : Bytes) (m : Machine c) (d1 d2 : Disk) (b : Bundle c)
      → (open_new_session c login password (record m { disk = d1 })).0 ≡ ok b
      → ((open_new_session c login password (record m { disk = d1 })).0 ≡ ok (on d1 b))
        × ((open_new_session c login password (record m { disk = d2 })).0 ≡ ok (on d2 b))
  unfolding open_new_session
  open_new_session_on login password m d1 d2 b h =
      let registered =
        AuthFlow.register c.random c.gcm c.kdf c.auth login password m.source
          (c.new m.server, Storage.new_empty_state) in
      elim (Result-cases registered.0) [
        | inr (e, f) ↦ absurd (ground arith)
        | inl (k, f) ↦
            elim (Result-cases
              (AuthFlow.login c.random c.gcm c.kdf c.auth login password registered.1).0) [
                | inr (e, g) ↦ absurd (ground arith)
                | inl (data_key, g) ↦ (ground arith, ground arith)
              ]
      ]

  -- Register does not read the file: where it succeeds, it would succeed whatever file there was, and
  -- leave the same file, so that nothing of the old one is left, be it another account's or not.
  pub run_register-renews :
      (unicode : Unicode) (env : Env) (login : String) (password : Bytes) (m : Machine c)
      (d1 d2 : Disk)
      → (run_register c unicode env login password (record m { disk = d1 })).1 ≡ ok tt
      → let first = run_register c unicode env login password (record m { disk = d1 }) in
        let second = run_register c unicode env login password (record m { disk = d2 }) in
        (second.1 ≡ ok tt) × (first.2.disk.target ≡ second.2.disk.target)
  unfolding run_register
  run_register-renews unicode env login password m d1 d2 h =
      elim (Result-cases (open_new_session c login password (record m { disk = d1 })).0) [
        | inr (e, f) ↦ absurd (ground arith)
        | inl (b, f) ↦
            let (one, two) = open_new_session_on login password m d1 d2 b f in
            let ended : (close c env (on d1 b)).0 ≡ ok tt =
              elim (Result-cases (close c env (on d1 b)).0) [
                | inl (u, g) ↦ g
                | inr (e, g) ↦ absurd (ground arith)
              ] in
            let (done, files) = close_on env b d1 d2 ended in
            (rw (run_register, two, done) refl, rw (run_register, one, two) files)
      ]

  -- Logout clears the tokens in the file, and there alone: nothing is sent to the server after the
  -- login, so that the tokens that it has given stay good. If the write fails, the file is the old
  -- one, and logout reports that.
  pub run_logout-forgets :
      (env : Env) (login : String) (password : Bytes) (m : Machine c) (b : Bundle c)
      (old empty : Storage.State)
      → (open_session c env login password m).0 ≡ ok b
      → Loads c.random c.gcm c.state_json c.envelope_json b.data_key empty b.disk.target old
      → let (result, m') = run_logout c env login password m in
        let new : Storage.State = record b.world.1.store {
          auth_token = "";
          refresh_token = "";
          version = current_format_version;
        } in
        let opens =
          Loads c.random c.gcm c.state_json c.envelope_json b.data_key empty m'.disk.target in
        (m'.server ≡ b.world.0) × (opens new ⊎ ((e : Error) × (result ≡ err e) × opens old))
  unfolding run_logout Session.close Session.close_without_sync Session.finish Session.clear_tokens
      Storage.set_tokens
  run_logout-forgets env login password m b old empty opened before =
      let cleared =
        Session.clear_tokens c.random c.gcm c.state_json c.envelope_json (transport c) c.uuid b in
      let (zeros, moments, ended) =
        close-IsClosed c.random c.gcm c.state_json c.envelope_json (transport c) c.uuid none
          env.system cleared old empty before in
      rw (run_logout, opened) (refl, ended)
