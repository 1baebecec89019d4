-- ===== src/Server/Postgres/Users/Profiles.antt =====
-- Accounts and profiles of the Postgres repository: what Create and UpdateProfile promise.
use voldepass.Prelude.{
  ◌≡◌, refl, Bool, true, false, some, [], ◌∷◌, ◌==◌, arith, eq_refl, eq_iff, inl, inr, Bool-cases,
  Option-cases,
}
use voldepass.Domain.{Bytes, KdfParams, User, Profile, ok, err, Result-cases, already_exists}
use voldepass.Server.Postgres.Users.{
  ParamsJson, Row, Table, find, change, clashes, row_of, insert_user, scan_user, get_by_login,
  get_by_id, create, profile_of, get_profile, set_profile, update_profile,
}

-- What an UPDATE does to the row that its WHERE selects, if the row it makes is selected too.
find-change :
    (p : Row → Bool) (f : Row → Row) (rows : Table) (row : Row)
    → ((x : Row) → p x ≡ true → p (f x) ≡ true)
    → find p rows ≡ some row
    → find p (change p f rows) ≡ some (f row)
unfolding find change
find-change p f [] row keeps e = cc
find-change p f (x ∷ rows) row keeps e = elim (Bool-cases (p x)) [
  | inl t ↦ ground (arith, keeps x t)
  | inr skip ↦ ground (arith, skip, find-change p f rows row keeps (ground arith))
]

module _ (j : ParamsJson) where
  create-ok :
      (u : User) (p : Profile) (rows : Table)
      → (create j false u p rows).0 ≡ ok tt
      → (json : Bytes) × (j.marshal p.kdf_params ≡ ok json)
        × ((create j false u p rows).1 ≡ row_of u p json ∷ rows)
  unfolding create insert_user
  create-ok u p rows done = elim (Result-cases (j.marshal p.kdf_params)) [
    | inr (e, failed) ↦ ground arith
    | inl (json, made) ↦ elim (Option-cases (find (clashes u) rows)) [
      | inr (row, taken) ↦ ground arith
      | inl free ↦ (json, made, ground arith)
    ]
  ]

  get_by_login-cons :
      (row : Row) (rest : Table) → get_by_login false row.user.login (row ∷ rest) ≡ ok row.user
  unfolding get_by_login scan_user find
  get_by_login-cons row rest = ground (arith, eq_refl row.user.login)

  get_by_id-cons :
      (row : Row) (rest : Table) → get_by_id false row.user.id (row ∷ rest) ≡ ok row.user
  unfolding get_by_id scan_user find
  get_by_id-cons row rest = ground (arith, eq_refl row.user.id)

  get_profile-cons :
      (row : Row) (rest : Table) (params : KdfParams)
      → j.unmarshal row.kdf_params ≡ ok params
      → get_profile j false row.user.id (row ∷ rest)
        ≡ ok (record {
          user_id = row.user.id;
          kdf_salt = row.kdf_salt;
          kdf_params = params;
          wrapped_data_key = row.wrapped_data_key;
          profile_version = row.profile_version;
        })
  unfolding get_profile profile_of find
  get_profile-cons row rest params e = rw (eq_refl, e) refl

  create-cons :
      (v : User) (q : Profile) (bytes : Bytes) (row : Row) (rest : Table)
      → j.marshal q.kdf_params ≡ ok bytes
      → v.login ≡ row.user.login
      → create j false v q (row ∷ rest) ≡ (err already_exists, row ∷ rest)
  unfolding create insert_user find
  create-cons v q bytes row rest e l = ground (arith, e, eq_iff row.user.login v.login)

  -- An account that Create made is found by its login and by its id, and its profile is the one that
  -- was given, under the id of the user. A second account with that login is refused, and changes
  -- nothing.
  pub find-create :
      (u other : User) (p p' : Profile) (json : Bytes) (rows : Table)
      → (create j false u p rows).0 ≡ ok tt
      → j.marshal p'.kdf_params ≡ ok json
      → other.login ≡ u.login
      → let rows' = (create j false u p rows).1 in
        (get_by_login false u.login rows' ≡ ok u)
        × (get_by_id false u.id rows' ≡ ok u)
        × (get_profile j false u.id rows' ≡ ok (record p { user_id = u.id }))
        × (create j false other p' rows' ≡ (err already_exists, rows'))
  find-create u other p p' json rows done encoded same =
      let (bytes, made, held) = create-ok u p rows done in
      let decoded = j.unmarshal-marshal p.kdf_params bytes made in
      rw held (
        get_by_login-cons (row_of u p bytes) rows,
        get_by_id-cons (row_of u p bytes) rows,
        get_profile-cons (row_of u p bytes) rows p.kdf_params decoded,
        create-cons other p' json (row_of u p bytes) rows encoded same,
      )

  -- After UpdateProfile, GetProfile gives the profile that was given.
  pub get_profile-update_profile :
      (p : Profile) (rows : Table)
      → (update_profile j false p rows).0 ≡ ok tt
      → get_profile j false p.user_id (update_profile j false p rows).1 ≡ ok p
  unfolding update_profile set_profile get_profile profile_of
  get_profile-update_profile p rows done = elim (Result-cases (j.marshal p.kdf_params)) [
    | inr (e, failed) ↦ ground arith
    | inl (json, made) ↦
        let is_of : Row → Bool = λ row. row.user.id == p.user_id in
        let decoded = j.unmarshal-marshal p.kdf_params json made in
        elim (Option-cases (find is_of rows)) [
          | inl absent ↦ ground arith
          | inr (row, found) ↦
              let changed =
                find-change is_of
                  (λ row. record row {
                    kdf_salt = p.kdf_salt;
                    kdf_params = json;
                    wrapped_data_key = p.wrapped_data_key;
                    profile_version = p.profile_version;
                  })
                  rows row (λ x t. t) found in
              rw (made, found, changed, decoded) refl
        ]
  ]
