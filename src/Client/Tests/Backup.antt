-- ===== src/Client/Tests/Backup.antt =====
-- A run of the backup: JSON for a profile that has a salt and nothing else.
use voldepass.Prelude.{
  ℕ, zero, suc, ◌≡◌, refl, sym, ap, Bool, true, false, ◌&&◌, List, [], ◌∷◌, eqb, eqb_iff, arith,
  if◌then◌else◌, inl, inr, Bool-cases,
}
use voldepass.Domain.{Bytes, KdfParams, Result, ok, err, internal}
use voldepass.Client.Json.{Json}
use voldepass.Client.Crypto.Aes.{encrypt}
use voldepass.Client.Crypto.Bundle.{
  ExportBundle, ExportBundleInner, zero_kdf_params, export_data, import_data,
}
use voldepass.Client.Crypto.RoundTrip.{import_data-export_data}
use voldepass.Client.Tests.Sealing.{random, gcm, key, boxed, sevens}

abbrev is_empty {ℓ} : {A : Type ℓ} → List A → Bool
is_empty [] = true
is_empty (a ∷ rest) = false

is_empty_lem {ℓ} : {A : Type ℓ} (xs : List A) → is_empty xs ≡ true → xs ≡ []
is_empty_lem [] h = refl
is_empty_lem (a ∷ rest) h = absurd (ground arith)

abbrev are_sevens : ℕ → Bytes → Bool
are_sevens zero b = is_empty b
are_sevens (suc n) [] = false
are_sevens (suc n) (b ∷ bs) = eqb b 7 && are_sevens n bs

are_sevens_lem : (n : ℕ) (b : Bytes) → are_sevens n b ≡ true → b ≡ sevens n
are_sevens_lem zero b h = is_empty_lem b h
are_sevens_lem (suc n) [] h = absurd (ground arith)
are_sevens_lem (suc n) (b ∷ bs) h =
    let e : b ≡ 7 = ground (arith, eqb_iff b 7) in
    let f = are_sevens_lem n bs (ground arith) in λ i. e i ∷ f i

abbrev is_zero : KdfParams → Bool
is_zero p = eqb p.time 0 && eqb p.memory 0 && eqb p.threads 0 && eqb p.key_len 0

is_zero_lem : (p : KdfParams) → is_zero p ≡ true → p ≡ zero_kdf_params
is_zero_lem p h =
    let a : p.time ≡ 0 = ground (arith, eqb_iff p.time 0) in
    let b : p.memory ≡ 0 = ground (arith, eqb_iff p.memory 0) in
    let c : p.threads ≡ 0 = ground (arith, eqb_iff p.threads 0) in
    let d : p.key_len ≡ 0 = ground (arith, eqb_iff p.key_len 0) in
    λ i. record { time = a i; memory = b i; threads = c i; key_len = d i }

abbrev salted : Bytes → ExportBundleInner
salted salt = record {
  kdf_salt = salt;
  kdf_params = zero_kdf_params;
  wrapped_data_key = [];
  records = [];
}

abbrev is_salted : ExportBundleInner → Bool
is_salted x = is_zero x.kdf_params && is_empty x.wrapped_data_key && is_empty x.records

is_salted_lem : (x : ExportBundleInner) → is_salted x ≡ true → salted x.kdf_salt ≡ x
is_salted_lem x h =
    let a = is_zero_lem x.kdf_params (ground arith) in
    let b = is_empty_lem x.wrapped_data_key (ground arith) in
    let c = is_empty_lem x.records (ground arith) in
    sym (λ i. record {
      kdf_salt = x.kdf_salt;
      kdf_params = a i;
      wrapped_data_key = b i;
      records = c i;
    })

abbrev write_inner : ExportBundleInner → Result Bytes
write_inner x = if is_salted x then ok x.kdf_salt else err internal

inner-RoundTrips : (x : ExportBundleInner) (b : Bytes) → write_inner x ≡ ok b → ok (salted b) ≡ ok x
inner-RoundTrips x b h = elim (Bool-cases (is_salted x)) [
  | inr f ↦ absurd (ground arith)
  | inl t ↦ let e : x.kdf_salt ≡ b = ground arith in rw (← e) (ap ok (is_salted_lem x t))
]

abbrev inner_json : Json ExportBundleInner
inner_json = record {
  marshal = write_inner;
  unmarshal = λ b. ok (salted b);
  unmarshal-marshal = inner-RoundTrips;
}

abbrev locked : Bytes → ExportBundle
locked ciphertext = record {
  version = 1;
  kdf_salt = [];
  kdf_params = zero_kdf_params;
  wrapped_data_key = [];
  records = [];
  nonce = sevens 12;
  ciphertext = ciphertext;
}

six_true :
    (a b c d e f : Bool)
    → (a && b && c && d && e && f) ≡ true
    → (a ≡ true) × (b ≡ true) × (c ≡ true) × (d ≡ true) × (e ≡ true) × (f ≡ true)
six_true a b c d e f h =
    (ground arith, ground arith, ground arith, ground arith, ground arith, ground arith)

abbrev is_locked : ExportBundle → Bool
is_locked x =
    eqb x.version 1
    && is_empty x.kdf_salt
    && is_zero x.kdf_params
    && is_empty x.wrapped_data_key
    && is_empty x.records
    && are_sevens 12 x.nonce

is_locked_lem : (x : ExportBundle) → is_locked x ≡ true → locked x.ciphertext ≡ x
is_locked_lem x h =
    let (h1, h2, h3, h4, h5, h6) =
      six_true (eqb x.version 1) (is_empty x.kdf_salt) (is_zero x.kdf_params)
        (is_empty x.wrapped_data_key) (is_empty x.records) (are_sevens 12 x.nonce) h in
    let a = (eqb_iff x.version 1).0 h1 in
    let b = is_empty_lem x.kdf_salt h2 in
    let c = is_zero_lem x.kdf_params h3 in
    let d = is_empty_lem x.wrapped_data_key h4 in
    let e = is_empty_lem x.records h5 in
    let f = are_sevens_lem 12 x.nonce h6 in
    sym (λ i. record {
      version = a i;
      kdf_salt = b i;
      kdf_params = c i;
      wrapped_data_key = d i;
      records = e i;
      nonce = f i;
      ciphertext = x.ciphertext;
    })

abbrev write_bundle : ExportBundle → Result Bytes
write_bundle x = if is_locked x then ok x.ciphertext else err internal

bundle-RoundTrips : (x : ExportBundle) (b : Bytes) → write_bundle x ≡ ok b → ok (locked b) ≡ ok x
bundle-RoundTrips x b h = elim (Bool-cases (is_locked x)) [
  | inr f ↦ absurd (ground arith)
  | inl t ↦ let e : x.ciphertext ≡ b = ground arith in rw (← e) (ap ok (is_locked_lem x t))
]

abbrev bundle_json : Json ExportBundle
bundle_json = record {
  marshal = write_bundle;
  unmarshal = λ b. ok (locked b);
  unmarshal-marshal = bundle-RoundTrips;
}

import_data-export_data_example :
    import_data random gcm inner_json bundle_json (boxed (3 ∷ 4 ∷ [])) key
    ≡ ok (salted (3 ∷ 4 ∷ []))
unfolding export_data encrypt
import_data-export_data_example =
    import_data-export_data random gcm inner_json bundle_json key (salted (3 ∷ 4 ∷ []))
      (boxed (3 ∷ 4 ∷ [])) tt refl
