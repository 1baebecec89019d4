-- ===== src/Server/Inmem/Users.antt =====
-- internal/server/storage/inmem/user.go: users by id and by login, and profiles by user id.
use voldepass.Prelude.{String, none, some, []}
use voldepass.GoMap.{GoMap, lookup, insert}
use voldepass.Domain.{User, Profile, Result, ok, err, not_found, already_exists}

pub record Repository : Type 0 where
  pub by_id : GoMap User
  pub by_login : GoMap User
  pub profiles : GoMap Profile

-- NewUserRepository
unfoldable pub new : Repository
new = record { by_id = []; by_login = []; profiles = [] }

-- Create
unfoldable pub create : User → Profile → Repository → Result (Unit {0}) × Repository
create u p r = elim (lookup u.login r.by_login) [
  | some _ ↦ (err already_exists, r)
  | none ↦ (
    ok tt,
    record {
      by_id = insert u.id u r.by_id;
      by_login = insert u.login u r.by_login;
      profiles = insert u.id p r.profiles;
    },
  )
]

-- GetByLogin
unfoldable pub get_by_login : String → Repository → Result User
get_by_login login r = elim (lookup login r.by_login) [ none ↦ err not_found | some u ↦ ok u ]

-- GetByID
unfoldable pub get_by_id : String → Repository → Result User
get_by_id id r = elim (lookup id r.by_id) [ none ↦ err not_found | some u ↦ ok u ]

-- GetProfile
unfoldable pub get_profile : String → Repository → Result Profile
get_profile user_id r = elim (lookup user_id r.profiles) [ none ↦ err not_found | some p ↦ ok p ]

-- UpdateProfile
unfoldable pub update_profile : Profile → Repository → Result (Unit {0}) × Repository
update_profile p r = elim (lookup p.user_id r.by_id) [
  | none ↦ (err not_found, r)
  | some _ ↦ (ok tt, record r { profiles = insert p.user_id p r.profiles })
]
