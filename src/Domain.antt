-- ===== src/Domain.antt =====
-- internal/domain: the entities and the sync messages that client and server share, and the
-- sentinel errors. Wrapping by `fmt.Errorf("%w")` keeps what `errors.Is` finds, so an error here is
-- the sentinel that it wraps; every other error is `internal`.
use voldepass.Prelude.{
  ℕ, ◌+◌, ◌*◌, ◌%◌, ◌^◌, ◌≡◌, refl, ◌⊎◌, inl, inr, String, Bool, List, ltb, leb, ◌&&◌,
}

abbrev pub Bytes : Type 0
Bytes = List ℕ

-- time.Time and time.Duration, in nanoseconds; the zero time is 0.
abbrev pub Time : Type 0
Time = ℕ

-- An int64 is modelled by its value plus 2 ^ 63, a number below 2 ^ 64: so the order of int64 is
-- the order of ℕ, and `++` is addition modulo 2 ^ 64, which wraps from the largest to the least.
abbrev pub Int64 : Type 0
Int64 = ℕ

-- The int64 0.
abbrev pub int64_zero : Int64
int64_zero = 2 ^ 63

-- x++
abbrev pub increment : Int64 → Int64
increment x = (x + 1) % 2 ^ 64

-- t.After(u)
abbrev pub after : Time → Time → Bool
after t u = ltb u t

-- errors.go
pub data Error : Type 0 where
  not_found conflict unauthorized already_exists rate_limited : Error
  invalid_argument payload_too_large internal : Error

-- The pair (value, error) that a Go function returns.
pub data Result {ℓ} (A : Type ℓ) : Type ℓ where
  ok : A → Result A
  err : Error → Result A

-- To split on a computed result and keep the equation.
pub Result-cases {ℓ} :
    {A : Type ℓ} (r : Result A) → ((a : A) × (r ≡ ok a)) ⊎ ((e : Error) × (r ≡ err e))
Result-cases (ok a) = inl (a, refl)
Result-cases (err e) = inr (e, refl)

infixl 5 ◌>>=◌
abbrev pub ◌>>=◌ {ℓ κ} : {A : Type ℓ} {B : Type κ} → Result A → (A → Result B) → Result B
ok a >>= f = f a
err e >>= f = err e

-- datatype.go: a uint8, of which 1 to 5 name a type.
abbrev pub DataType : Type 0
DataType = ℕ

abbrev pub data_type_unknown : DataType
data_type_unknown = 0

abbrev pub data_type_credentials : DataType
data_type_credentials = 1

abbrev pub data_type_text : DataType
data_type_text = 2

abbrev pub data_type_binary : DataType
data_type_binary = 3

abbrev pub data_type_card : DataType
data_type_card = 4

abbrev pub data_type_otp : DataType
data_type_otp = 5

-- DataType.Valid
unfoldable pub valid : DataType → Bool
valid t = leb data_type_credentials t && leb t data_type_otp

-- record.go
pub record Record : Type 0 where
  pub id : String
  pub owner_id : String
  pub data_type : DataType
  pub encrypted_meta : Bytes
  pub meta_nonce : Bytes
  pub ciphertext : Bytes
  pub nonce : Bytes
  pub version : Int64
  pub updated_at : Time
  pub deleted : Bool

-- sync.go
pub record RecordDto : Type 0 where
  pub id : String
  pub data_type : DataType
  pub encrypted_meta : Bytes
  pub meta_nonce : Bytes
  pub ciphertext : Bytes
  pub nonce : Bytes
  pub base_version : Int64
  pub version : Int64
  pub updated_at : Time
  pub is_deleted : Bool

pub record SyncPullResponse : Type 0 where
  pub records : List RecordDto

pub record SyncPushRequest : Type 0 where
  pub records : List RecordDto

pub data PushStatus : Type 0 where
  applied conflicted : PushStatus

pub record PushResult : Type 0 where
  pub id : String
  pub status : PushStatus
  pub server_record : RecordDto

pub record SyncPushResponse : Type 0 where
  pub results : List PushResult

-- user.go
pub record KdfParams : Type 0 where
  pub time : ℕ
  pub memory : ℕ
  pub threads : ℕ
  pub key_len : ℕ

-- DefaultKdfParams
unfoldable pub default_kdf_params : KdfParams
default_kdf_params = record { time = 2; memory = 64 * 1024; threads = 4; key_len = 32 }

pub record User : Type 0 where
  pub id : String
  pub login : String
  pub auth_verifier : Bytes
  pub created_at : Time

pub record Profile : Type 0 where
  pub user_id : String
  pub kdf_salt : Bytes
  pub kdf_params : KdfParams
  pub wrapped_data_key : Bytes
  pub profile_version : ℕ
