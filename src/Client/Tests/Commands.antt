-- ===== src/Client/Tests/Commands.antt =====
-- Runs of the commands.
use voldepass.Prelude.{◌≡◌, refl, none, some, [], ◌∷◌, ◌⊎◌, arith}
use native.Mathlib.Decide.{ℕ_discrete}
use voldepass.Domain.{
  Bytes, data_type_text, int64_zero, Result, ok, err, internal, Error, Profile, default_kdf_params,
  RecordDto,
}
use voldepass.Client.Storage
use voldepass.Client.Storage.{current_format_version}
use voldepass.Client.Storage.File.{Disk, seal_state, load, save, atomic_write_file, finish_write}
use voldepass.Client.Storage.File.Crash.{Loads}
use voldepass.Client.Json.{Json}
use voldepass.Client.Crypto.Aes.{
  encrypt, decrypt, wrap_key, unwrap_key, generate_salt, generate_data_key,
}
use voldepass.Client.AuthFlow
use voldepass.Client.Session
use voldepass.Client.Vault
use voldepass.Client.Syncer.Run.{sync, replay_pending, replay_batches, rounds, pull}
use voldepass.Client.Syncer.Local.{merge_all, newest}
use voldepass.Client.Tui.Form.{Payload, credentials, content, binary, card, otp, other}
use voldepass.Client.Cli.{
  Setup, Env, Machine, bundle, open_session, load_session, open_new_session, read_file, close,
}
use voldepass.Client.Cli.Flags.{PayloadFlags, build_payload}
use voldepass.Client.Cli.Commands.{run_add, run_get}
use voldepass.Client.Cli.Accounts.{run_logout, run_register}
use voldepass.Client.Cli.Offline.{run_get-run_add}
use voldepass.Client.Cli.Renewed.{run_register-renews, run_logout-forgets}
use voldepass.GoMap.{insert, values}
use voldepass.Client.Tests.Passwords.{ascii}
use voldepass.Client.Tests.Fixtures.{uuid}
use voldepass.Client.Tests.Sealing.{random, gcm, key, sevens, boxed}
use voldepass.Client.Tests.Files.{
  json_of, envelope_json, no_file, kdf, transport, String-discrete, State-discrete, Bytes-discrete,
  write_state, write_envelope,
}

-- The payloads of texts have JSON.
abbrev write_payload : Payload → Result Bytes
write_payload (content b) = ok b
write_payload (credentials l p) = err internal
write_payload (binary b f) = err internal
write_payload (card n h e c) = err internal
write_payload (otp o) = err internal
write_payload other = err internal

write_payload_lem : (p : Payload) (b : Bytes) → write_payload p ≡ ok b → ok (content b) ≡ ok p
write_payload_lem (content x) b h = ground arith
write_payload_lem (credentials l p) b h = absurd (ground arith)
write_payload_lem (binary x f) b h = absurd (ground arith)
write_payload_lem (card n x e c) b h = absurd (ground arith)
write_payload_lem (otp o) b h = absurd (ground arith)
write_payload_lem other b h = absurd (ground arith)

abbrev text_json : Json Payload
text_json = record {
  marshal = write_payload;
  unmarshal = λ b. ok (content b);
  unmarshal-marshal = write_payload_lem;
}

-- No JSON.
abbrev no_json {ℓ} : {A : Type ℓ} → Json A
no_json = record {
  marshal = λ a. err internal;
  unmarshal = λ b. err internal;
  unmarshal-marshal = λ a b h. absurd (ground arith);
}

-- A server that does not answer to a pull, and a file for one state.
abbrev setup : Storage.State → Setup
setup s = record {
  random = random;
  gcm = gcm;
  kdf = kdf;
  state_json = json_of s;
  envelope_json = envelope_json;
  inner_json = no_json;
  bundle_json = no_json;
  json = λ t. text_json;
  auth = transport;
  new = λ server. server;
  pull = λ v server. (err internal, server);
  push = λ k req server. (err internal, server);
  uuid = uuid;
}

abbrev password : Bytes
password = 3 ∷ 4 ∷ []

-- A profile whose data key is the key of the other runs.
abbrev profile : Profile
profile = record {
  user_id = "";
  kdf_salt = [];
  kdf_params = default_kdf_params;
  wrapped_data_key = 7 ∷ 7 ∷ 7 ∷ 7 ∷ 7 ∷ 7 ∷ 7 ∷ 7 ∷ 7 ∷ 7 ∷ 7 ∷ 7 ∷ boxed key;
  profile_version = 1;
}

abbrev env : Env
env = record {
  system = record { failure = λ call. none; torn = λ b. [] };
  read_failure = none;
  now = 9;
}

abbrev entered : Storage.State
entered = record Storage.new_empty_state {
  kdf_salt = profile.kdf_salt;
  kdf_params = profile.kdf_params;
  wrapped_data_key = profile.wrapped_data_key;
  auth_token = "access";
  refresh_token = "refresh";
}

abbrev flags : PayloadFlags
flags = record {
  meta = [];
  login = [];
  password = [];
  content = 5 ∷ [];
  number = [];
  holder = [];
  expiry = [];
  cvv = [];
  secret = [];
  issuer = [];
  account = [];
  algorithm = [];
  digits = int64_zero;
  period = int64_zero;
  filename = [];
}

abbrev added : RecordDto
added = record (Vault.blank (uuid 0) data_type_text) {
  ciphertext = boxed (5 ∷ []);
  nonce = sevens 12;
}

abbrev with_text : Storage.State
with_text = record entered { records = (uuid 0, Vault.dirtied 9 added) ∷ [] }

abbrev fresh : (s : Storage.State) → Machine (setup s)
fresh s = record { server = some profile; disk = no_file; source = tt; uuids = 0 }

abbrev writer : Setup
writer = setup with_text

run_get-run_add_example :
    ((run_add writer env "alice" password data_type_text flags (fresh with_text)).0 ≡ err internal)
    × ((run_get writer env "alice" password (uuid 0) (record (fresh with_text) {
      disk = (run_add writer env "alice" password data_type_text flags (fresh with_text)).1.disk;
    })).0
        ≡ some ([], content (5 ∷ [])))
unfolding open_session load_session read_file load AuthFlow.login AuthFlow.derive_keys
    AuthFlow.accept AuthFlow.auth_message unwrap_key decrypt build_payload Vault.create
    Vault.seal_record Vault.encrypt_meta encrypt seal_state Storage.new_empty_state
    Storage.put_record write_state write_envelope State-discrete Bytes-discrete String-discrete
    ℕ_discrete Storage.set_tokens Storage.set_profile default_kdf_params insert
run_get-run_add_example =
    run_get-run_add writer env env "alice" password data_type_text flags (fresh with_text)
      (record (fresh with_text) {
        disk = (run_add writer env "alice" password data_type_text flags (fresh with_text)).1.disk;
      })
      (bundle writer entered key (fresh with_text)) (content (5 ∷ [])) added internal
      (boxed (6 ∷ [])) (some profile) entered refl refl refl refl refl (λ call. refl) refl refl refl
      refl

run_logout-forgets_example :
    let (result, m') = run_logout writer env "alice" password (fresh with_text) in
    let new : Storage.State = record entered { auth_token = ""; refresh_token = "" } in
    let opens = Loads random gcm (json_of with_text) envelope_json key entered m'.disk.target in
    (m'.server ≡ some profile) × (opens new ⊎ ((e : Error) × (result ≡ err e) × opens entered))
unfolding open_session load_session read_file load AuthFlow.login AuthFlow.derive_keys
    AuthFlow.accept AuthFlow.auth_message unwrap_key decrypt Storage.new_empty_state
    Storage.set_tokens Storage.set_profile default_kdf_params
run_logout-forgets_example =
    run_logout-forgets writer env "alice" password (fresh with_text)
      (bundle writer entered key (fresh with_text)) entered entered refl refl

-- What a registration at 9 leaves on a server that has nothing.
abbrev renewed : Storage.State
renewed = record Storage.new_empty_state {
  kdf_salt = sevens 32;
  kdf_params = default_kdf_params;
  wrapped_data_key = 7 ∷ 7 ∷ 7 ∷ 7 ∷ 7 ∷ 7 ∷ 7 ∷ 7 ∷ 7 ∷ 7 ∷ 7 ∷ 7 ∷ boxed (sevens 32);
  auth_token = "access";
  refresh_token = "refresh";
  last_sync_at = 9;
}

-- A box that takes every key, and a server without records.
abbrev registrar : Setup
registrar = record (setup renewed) {
  gcm = record gcm { new_gcm = λ key. ok tt };
  pull = λ v server. (ok (record { records = [] }), server);
}

abbrev unregistered : Disk → Machine registrar
unregistered d = record { server = none; disk = d; source = tt; uuids = 0 }

abbrev another_file : Disk
another_file = record { target = some (1 ∷ []); temp = none }

run_register-renews_example :
    let first = run_register registrar ascii env "alice" password (unregistered another_file) in
    let second = run_register registrar ascii env "alice" password (unregistered no_file) in
    (second.1 ≡ ok tt) × (first.2.disk.target ≡ second.2.disk.target)
unfolding run_register open_new_session AuthFlow.register AuthFlow.make_keys AuthFlow.send_keys
    AuthFlow.derive_keys AuthFlow.accept AuthFlow.auth_message AuthFlow.login generate_salt
    generate_data_key wrap_key encrypt unwrap_key decrypt close Session.close Session.finish
    Session.zero_bytes sync replay_pending replay_batches rounds pull merge_all newest
    Storage.set_tokens Storage.set_profile Storage.new_empty_state Storage.list_dirty
    Storage.set_last_sync_at Storage.set_last_sync_version values save seal_state atomic_write_file
    finish_write write_state write_envelope State-discrete Bytes-discrete String-discrete ℕ_discrete
    default_kdf_params
run_register-renews_example =
    run_register-renews registrar ascii env "alice" password (unregistered no_file) another_file
      no_file refl
