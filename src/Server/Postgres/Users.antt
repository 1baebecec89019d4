-- ===== src/Server/Postgres/Users.antt =====
-- internal/server/storage/postgres/user.go: the table `users`, unique in the id and in the login. The
-- JSON of the parameters, by way of the column that keeps it, is a parameter.
pub mod Profiles
use voldepass.Prelude.{
  ℕ, String, ◌≡◌, refl, Bool, true, false, Option, none, some, List, [], ◌∷◌, ◌==◌, ◌||◌,
  if◌then◌else◌, arith, eq_refl, inl, inr, Bool-cases,
}
use voldepass.Domain.{
  Bytes, Time, KdfParams, User, Profile, Result, ok, err, ◌>>=◌, not_found, already_exists,
  internal,
}

-- json.Marshal and json.Unmarshal of the parameters, and the column between the two
pub record ParamsJson : Type 0 where
  pub marshal : KdfParams → Result Bytes
  pub unmarshal : Bytes → Result KdfParams
  pub unmarshal-marshal :
      (params : KdfParams) (json : Bytes) → marshal params ≡ ok json → unmarshal json ≡ ok params

pub record Row : Type 0 where
  pub user : User
  pub kdf_salt : Bytes
  pub kdf_params : Bytes
  pub wrapped_data_key : Bytes
  pub profile_version : ℕ

abbrev pub Table : Type 0
Table = List Row

-- The row that a WHERE selects
unfoldable pub find : (Row → Bool) → Table → Option Row
find p [] = none
find p (row ∷ rows) = if p row then some row else find p rows

-- The row that an UPDATE changes
unfoldable pub change : (Row → Bool) → (Row → Row) → Table → Table
change p f [] = []
change p f (row ∷ rows) = if p row then f row ∷ rows else row ∷ change p f rows

-- The row that an INSERT would clash with
abbrev pub clashes : User → Row → Bool
clashes u row = row.user.id == u.id || row.user.login == u.login

-- The row that Create inserts
abbrev pub row_of : User → Profile → Bytes → Row
row_of u p kdf_params = record {
  user = u;
  kdf_salt = p.kdf_salt;
  kdf_params = kdf_params;
  wrapped_data_key = p.wrapped_data_key;
  profile_version = p.profile_version;
}

-- The INSERT, where 23505 is the violation of a unique key
unfoldable pub insert_user : User → Profile → Bytes → Table → Result (Unit {0}) × Table
unfolding find
insert_user u p kdf_params rows = elim (find (clashes u) rows) [
  | some _ ↦ (err already_exists, rows)
  | none ↦ (ok tt, row_of u p kdf_params ∷ rows)
]

-- scanUser
unfoldable pub scan_user : Bool → (Row → Bool) → Table → Result User
unfolding find
scan_user fails p rows =
    if fails
    then err internal
    else elim (find p rows) [ none ↦ err not_found | some row ↦ ok row.user ]

-- GetByLogin
unfoldable pub get_by_login : Bool → String → Table → Result User
unfolding scan_user
get_by_login fails login rows = scan_user fails (λ row. row.user.login == login) rows

-- GetByID
unfoldable pub get_by_id : Bool → String → Table → Result User
unfolding scan_user
get_by_id fails id rows = scan_user fails (λ row. row.user.id == id) rows

module _ (j : ParamsJson) where
  -- Create
  unfoldable pub create : Bool → User → Profile → Table → Result (Unit {0}) × Table
  unfolding insert_user
  create fails u p rows = elim (j.marshal p.kdf_params) [
    | err e ↦ (err e, rows)
    | ok json ↦ if fails then (err internal, rows) else insert_user u p json rows
  ]

  -- GetProfile, from the row on
  unfoldable pub profile_of : String → Row → Result Profile
  profile_of user_id row = j.unmarshal row.kdf_params >>= (λ params. ok (record {
    user_id = user_id;
    kdf_salt = row.kdf_salt;
    kdf_params = params;
    wrapped_data_key = row.wrapped_data_key;
    profile_version = row.profile_version;
  }))

  -- GetProfile
  unfoldable pub get_profile : Bool → String → Table → Result Profile
  unfolding find profile_of
  get_profile fails user_id rows =
      if fails then err internal else elim (find (λ row. row.user.id == user_id) rows) [
        | none ↦ err not_found
        | some row ↦ profile_of user_id row
      ]

  -- The UPDATE of UpdateProfile
  unfoldable pub set_profile : Profile → Bytes → Table → Result (Unit {0}) × Table
  unfolding find change
  set_profile p json rows =
      let is_of : Row → Bool = λ row. row.user.id == p.user_id in
      elim (find is_of rows) [
        | none ↦ (err not_found, rows)
        | some _ ↦ (
          ok tt,
          change is_of
              (λ row. record row {
                kdf_salt = p.kdf_salt;
                kdf_params = json;
                wrapped_data_key = p.wrapped_data_key;
                profile_version = p.profile_version;
              })
              rows,
        )
      ]

  -- UpdateProfile
  unfoldable pub update_profile : Bool → Profile → Table → Result (Unit {0}) × Table
  unfolding set_profile
  update_profile fails p rows = elim (j.marshal p.kdf_params) [
    | err e ↦ (err e, rows)
    | ok json ↦ if fails then (err internal, rows) else set_profile p json rows
  ]
