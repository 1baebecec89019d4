-- ===== src/Client/Tests/Files.antt =====
-- Runs of the encrypted file and of the sessions.
use voldepass.Prelude.{
  Bool, true, false, ◌↔◌, String, ◌++◌, ◌≡◌, refl, sym, ap, Option, none, some, [], ◌∷◌, arith,
  take, eq_iff, ◌==◌, true,
}
use native.Mathlib.Decide.{ℕ_discrete}
use mathlib.Core.Bool.{false≢true}
use voldepass.Client.Crypto.Aes.{encrypt, wrap_key, generate_salt, generate_data_key}
use voldepass.Client.AuthFlow.{
  Kdf, AuthTransport, derive_keys, make_keys, send_keys, register, accept, login,
}
use voldepass.Client.Session
use voldepass.Client.Session.{Session}
use voldepass.Client.Session.Closing.{IsClosed, close-IsClosed}
use voldepass.Client.Syncer.Run.{Transport}
use voldepass.Client.Tests.Fixtures.{uuid}
use voldepass.Client.AuthFlow.Recovery.{login-register}
use voldepass.Domain.{Bytes, Profile, Result, ok, err, internal, Error, default_kdf_params}
use voldepass.Client.Storage
use voldepass.Client.Storage.{current_format_version, StoredRecord}
use voldepass.Client.Storage.File.{
  FileEnvelope, Disk, Call, System, create_temp, write_temp, sync_temp, close_temp, rename_temp,
  load,
}
use voldepass.Client.Storage.File.Crash.{Loads}
use voldepass.Client.Json.{Json}
use voldepass.Client.Tests.Sealing.{random, gcm, key, sevens, boxed}

unfoldable pub decide {ℓ} : {P : Type ℓ} (b : Bool) → (b ≡ true) ↔ P → Dec P
decide true h = yes (h.0 refl)
decide false h = no (λ p. false≢true (h.1 p))

unfoldable pub String-discrete : Discrete String
unfolding decide
String-discrete s t = decide (s == t) (eq_iff s t)

unfoldable pub State-discrete : Discrete Storage.State
State-discrete = hlevel (ℕ_discrete, String-discrete)

unfoldable pub Bytes-discrete : Discrete Bytes
Bytes-discrete = hlevel (ℕ_discrete)

-- The JSON of one state is a byte, and no other state has one.
unfoldable pub write_state : {s target : Storage.State} → Dec (s ≡ target) → Result Bytes
write_state (yes e) = ok (6 ∷ [])
write_state (no n) = err internal

pub write_state_lem :
    {s target : Storage.State} (d : Dec (s ≡ target)) (b : Bytes)
    → write_state d ≡ ok b
    → ok target ≡ ok s
unfolding write_state
write_state_lem (yes e) b h = ap ok (sym e)
write_state_lem (no n) b h = absurd (ground arith)

abbrev pub json_of : Storage.State → Json Storage.State
json_of target = record {
  marshal = λ s. write_state (State-discrete s target);
  unmarshal = λ b. ok target;
  unmarshal-marshal = λ s b h. write_state_lem (State-discrete s target) b h;
}

-- The state that is saved.
abbrev edited : Storage.State
unfolding Storage.new_empty_state
edited = record Storage.new_empty_state { auth_token = "access" }

abbrev state_json : Json Storage.State
state_json = json_of edited

unfoldable pub write_envelope : {nonce : Bytes} → Dec (nonce ≡ sevens 12) → Bytes → Result Bytes
write_envelope (yes e) ciphertext = ok ciphertext
write_envelope (no n) ciphertext = err internal

abbrev pub with_sevens : Bytes → FileEnvelope
with_sevens ciphertext = record { nonce = sevens 12; ciphertext = ciphertext }

pub write_envelope_lem :
    {nonce : Bytes} (d : Dec (nonce ≡ sevens 12)) (ciphertext b : Bytes)
    → write_envelope d ciphertext ≡ ok b
    → with_sevens b ≡ record { nonce = nonce; ciphertext = ciphertext }
unfolding write_envelope
write_envelope_lem (yes e) ciphertext b h =
    let same : ciphertext ≡ b = ground arith in
    λ i. record { nonce = sym e i; ciphertext = sym same i }
write_envelope_lem (no n) ciphertext b h = absurd (ground arith)

abbrev pub envelope_json : Json FileEnvelope
envelope_json = record {
  marshal = λ x. write_envelope (Bytes-discrete x.nonce (sevens 12)) x.ciphertext;
  unmarshal = λ b. ok (with_sevens b);
  unmarshal-marshal =
      λ x b h. ap ok (write_envelope_lem (Bytes-discrete x.nonce (sevens 12)) x.ciphertext b h);
}

-- A system on which the file cannot be renamed.
unfoldable fails : Call → Option Error
fails create_temp = none
fails write_temp = none
fails sync_temp = none
fails close_temp = none
fails rename_temp = some internal

abbrev stuck : System
stuck = record { failure = fails; torn = λ content. take 1 content }

abbrev pub no_file : Disk
no_file = record { target = none; temp = none }

abbrev Opens : Option Bytes → Storage.State → Type 0
Opens raw s = Loads random gcm state_json envelope_json key Storage.new_empty_state raw s

abbrev pub kdf : Kdf
kdf = record {
  id_key = λ password salt params. take 2 password;
  hmac = λ auth_key nonce. auth_key ++ nonce;
}

-- A server that keeps one profile and gives the nonce 9.
abbrev pub transport : AuthTransport
transport = record {
  Server = Option Profile;
  register = λ name auth_key profile s. (ok tt, some profile);
  challenge = λ name s. (elim s [ none ↦ err internal | some profile ↦ ok (9 ∷ [], profile) ], s);
  login = λ name message s. (ok ("access", "refresh"), s);
}

abbrev pub salted : Profile
unfolding default_kdf_params
salted = record {
  user_id = "";
  kdf_salt = sevens 32;
  kdf_params = default_kdf_params;
  wrapped_data_key = 7 ∷ 7 ∷ 7 ∷ 7 ∷ 7 ∷ 7 ∷ 7 ∷ 7 ∷ 7 ∷ 7 ∷ 7 ∷ 7 ∷ boxed (sevens 32);
  profile_version = 1;
}

login-register_example :
    login random gcm kdf transport "alice" (3 ∷ 4 ∷ []) (some salted, Storage.new_empty_state) ≡ (
      ok (sevens 32),
      (
        some salted,
        accept random gcm kdf transport salted
            ("access", "refresh")
            (sevens 32)
            Storage.new_empty_state,
      ),
    )
unfolding register make_keys send_keys derive_keys generate_salt generate_data_key wrap_key encrypt
    Storage.set_profile salted
login-register_example =
    login-register random gcm kdf transport "alice" (3 ∷ 4 ∷ []) (sevens 32) tt
      (none, Storage.new_empty_state) (some salted, Storage.new_empty_state) (9 ∷ []) salted
      ("access", "refresh") refl refl refl refl refl refl

-- A server that does not answer.
abbrev silent : Transport
silent = record {
  Server = Unit {0};
  pull = λ v s. (err internal, s);
  push = λ key req s. (err internal, s);
}

abbrev ending : Session random gcm state_json envelope_json silent uuid
ending = record {
  world = (tt, record { store = edited; uuids = 0 });
  data_key = key;
  disk = no_file;
  source = tt;
}

abbrev last_sync : Session.Syncer
last_sync = record { max_iterations = 3; chunk_size = 2; now = 9 }

close-IsClosed_example :
    IsClosed random gcm state_json envelope_json silent uuid key Storage.new_empty_state
      Storage.new_empty_state
      (Session.close random gcm state_json envelope_json silent uuid (some last_sync) stuck ending)
unfolding load Storage.new_empty_state
close-IsClosed_example =
    close-IsClosed random gcm state_json envelope_json silent uuid (some last_sync) stuck ending
      Storage.new_empty_state Storage.new_empty_state refl
