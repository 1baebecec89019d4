-- ===== src/Client/Tests/Sealing.antt =====
-- Runs of the encryption, the vault and the estimate of a password.
use voldepass.Prelude.{
  ℕ, zero, suc, ◌+◌, ◌^◌, ◌≡◌, refl, sym, ap, false, [], ◌∷◌, eqb, arith, length, drop,
  if◌then◌else◌,
}
use voldepass.GoMap.{lookup, insert}
use voldepass.Domain.{Bytes, RecordDto, Record, ok, err, internal}
use voldepass.Client.Storage
use voldepass.Client.Json.{Json}
use voldepass.Client.Crypto.Random.{Random}
use voldepass.Client.Crypto.Aes.{Gcm, encrypt, decrypt}
use voldepass.Client.Crypto.RoundTrip.{decrypt-encrypt}
use voldepass.Client.Vault
use voldepass.Client.Vault.RoundTrip.{IsRead, get-create}
use voldepass.Client.Vault.Stale.{update-stale}
use voldepass.Server.Ports.{stale}
use voldepass.Server.Inmem.Records
use voldepass.Client.Syncer.Local.{merge, resolve_conflict}
use voldepass.Client.Tests.Fixtures.{uuid, theirs, mine, here, here-IsValid}

-- A source that gives sevens.
abbrev pub sevens : ℕ → Bytes
sevens zero = []
sevens (suc n) = 7 ∷ sevens n

pub length-sevens : (n : ℕ) → length (sevens n) ≡ n
length-sevens zero = refl
length-sevens (suc n) = ap suc (length-sevens n)

abbrev pub random : Random
random = record {
  State = Unit;
  read_full = λ n s. (ok (sevens n), s);
  int = λ n s. (ok 0, s);
  length-read_full = λ n s b h. let e : sevens n ≡ b = ground arith in rw (← e) (length-sevens n);
  int-lt = λ n i s h e. ground arith;
}

-- A box that puts a tag of 16 zeros before the plaintext.
abbrev pub gcm : Gcm
gcm = record {
  new_gcm = λ key. if eqb (length key) 2 then ok tt else err internal;
  nonce_size = 12;
  seal = λ key nonce plaintext.
      0 ∷ 0 ∷ 0 ∷ 0 ∷ 0 ∷ 0 ∷ 0 ∷ 0 ∷ 0 ∷ 0 ∷ 0 ∷ 0 ∷ 0 ∷ 0 ∷ 0 ∷ 0 ∷ plaintext;
  unseal = λ key nonce ciphertext. ok (drop 16 ciphertext);
  standard_nonce_size = refl;
  unseal-seal = λ key nonce plaintext. refl;
  length-seal = λ key nonce plaintext. omega arith;
}

abbrev pub key : Bytes
key = 1 ∷ 2 ∷ []

-- A payload that is its own JSON.
abbrev plain : Json Bytes
plain = record { marshal = ok; unmarshal = ok; unmarshal-marshal = λ a b h. sym h }

abbrev pub boxed : Bytes → Bytes
boxed plaintext = 0 ∷ 0 ∷ 0 ∷ 0 ∷ 0 ∷ 0 ∷ 0 ∷ 0 ∷ 0 ∷ 0 ∷ 0 ∷ 0 ∷ 0 ∷ 0 ∷ 0 ∷ 0 ∷ plaintext

decrypt-encrypt_example : decrypt random gcm key (boxed (5 ∷ [])) (sevens 12) ≡ ok (5 ∷ [])
unfolding encrypt
decrypt-encrypt_example =
    decrypt-encrypt random gcm key (5 ∷ []) (boxed (5 ∷ []), sevens 12) tt refl

abbrev sealed : RecordDto
sealed = record (Vault.blank "n1" 2) {
  ciphertext = boxed (5 ∷ []);
  nonce = sevens 12;
  encrypted_meta = boxed (9 ∷ []);
  meta_nonce = sevens 12;
}

get-create_example :
    IsRead random gcm plain key "n1" 4
      (9 ∷ [])
      (5 ∷ [])
      sealed
      (Vault.create random gcm plain key "n1" 4 2 (9 ∷ []) (5 ∷ []) tt here.store).2
unfolding Vault.create Vault.seal_record Vault.encrypt_meta encrypt
get-create_example =
    get-create random gcm plain key "n1" 4 2 (9 ∷ []) (5 ∷ []) tt here.store sealed refl

abbrev edited : RecordDto
edited = record mine.dto {
  ciphertext = boxed (5 ∷ []);
  nonce = sevens 12;
  encrypted_meta = [];
  meta_nonce = [];
}

-- The server's change at 4, before the local edit at 5.
abbrev earlier : RecordDto
earlier = record theirs { updated_at = 4 }

abbrev server_held : Record
server_held = record {
  id = "r1";
  owner_id = "alice";
  data_type = 1;
  encrypted_meta = [];
  meta_nonce = [];
  ciphertext = 7 ∷ [];
  nonce = [];
  version = 2 ^ 63 + 2;
  updated_at = 4;
  deleted = false;
}

abbrev shop : Records.Repository
shop = record { records = ("r1", server_held) ∷ []; seq = 2 ^ 63 + 2 }

update-stale_example :
    Records.upsert 20 server_held edited.base_version shop ≡ (stale server_held, shop)
unfolding Vault.update Vault.seal_record Vault.encrypt_meta encrypt merge resolve_conflict
    Storage.get_record Storage.put_record lookup insert
update-stale_example =
    update-stale random gcm plain key uuid 9 earlier here mine [] (5 ∷ []) tt edited 20 shop
      server_held server_held here-IsValid refl refl refl refl refl refl
      (λ e. absurd (omega (arith, e))) refl
