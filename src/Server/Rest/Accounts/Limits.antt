-- ===== src/Server/Rest/Accounts/Limits.antt =====
-- What a client can expect of the handlers of accounts.
use voldepass.Prelude.{
  ℕ, String, Bool, ◌==◌, ◌≡◌, refl, sym, ◌∙◌, ap, Option, none, some, arith, Option-cases,
  Bool-cases, inl, inr, true, false, ltb,
}
use voldepass.GoMap.{lookup, insert}
use voldepass.GoMap.Laws.{lookup-insert_self}
use voldepass.Domain.{Bytes, Time, User, Profile, Result, ok, err, already_exists, ◌>>=◌}
use voldepass.Server.Inmem.Users
use voldepass.Server.Inmem.Attempts
use voldepass.Server.Auth.Primitives.{Primitives}
use voldepass.Server.Service.Auth
use voldepass.Server.Service.Auth.{Service, AuthTokens}
use voldepass.Server.Rest.{
  Reply, replied, failed, respond, Body, decoded, decode_error, status_of, validate_short_string,
  max_short_db_string_length,
}
use voldepass.Server.Rest.Accounts.{
  RegisterRequest, LoginRequest, profile_of, register, login, login_rate_limit, limited_login,
}

limited_login-passes :
    (p : Primitives) (now : Time) (raw : Option Bytes) (seen : Body String)
    (body : Body LoginRequest) (s : Service)
    → login_rate_limit now seen s ≡ none
    → limited_login p now raw seen body s ≡ login p now raw body s
unfolding limited_login
limited_login-passes p now raw seen body s e = rw (limited_login, e) refl

login-refused :
    (p : Primitives) (now : Time) (raw : Option Bytes) (req : LoginRequest) (s : Service)
    → Attempts.allowed now req.login s.attempts ≡ false
    → login p now raw (decoded req) s ≡ (failed 429, s)
unfolding login Auth.login decode_error status_of
login-refused p now raw req s e = rw (login, Auth.login, e) refl

-- For a body that the middleware and the handler read alike, the limit on logins in front of the
-- handler changes nothing: the reply and the state are those of the handler alone.
pub limited_login-login :
    (p : Primitives) (now : Time) (raw : Option Bytes) (req : LoginRequest) (s : Service)
    → limited_login p now raw (decoded req.login) (decoded req) s ≡ login p now raw (decoded req) s
unfolding limited_login login_rate_limit status_of
limited_login-login p now raw req s =
    let seen : Body String = decoded req.login in
    elim (Bool-cases (req.login == "")) [
      | inl t ↦ limited_login-passes p now raw seen (decoded req) s (rw t refl)
      | inr f ↦ elim (Bool-cases (Attempts.allowed now req.login s.attempts)) [
        | inl t ↦ limited_login-passes p now raw seen (decoded req) s (rw (f, t) refl)
        | inr g ↦ rw (limited_login, f, g) (sym (login-refused p now raw req s g))
      ]
    ]

-- A login that is not too long goes to the service.
abbrev answered : Result User × Service → Reply (String × String) × Service
answered (r, s) = (respond 201 (r >>= λ u. ok (u.id, u.login)), s)

abbrev user_of : Time → String → RegisterRequest → User
user_of now id req = record {
  id = id;
  login = req.login;
  auth_verifier = req.auth_verifier;
  created_at = now;
}

-- What Users.create gives, as the service hands it on.
abbrev kept : User → Service → Result (Unit {0}) × Users.Repository → Result User × Service
kept u s c = elim c.0 [
  | err e ↦ (err e, record s { users = c.1 })
  | ok _ ↦ (ok u, record s { users = c.1 })
]

create-taken :
    (u taken : User) (p : Profile) (r : Users.Repository)
    → lookup u.login r.by_login ≡ some taken
    → Users.create u p r ≡ (err already_exists, r)
unfolding Users.create
create-taken u taken p r e = rw (Users.create, e) refl

added : User → Profile → Users.Repository → Users.Repository
added u p r = record {
  by_id = insert u.id u r.by_id;
  by_login = insert u.login u r.by_login;
  profiles = insert u.id p r.profiles;
}

create-added :
    (u : User) (p : Profile) (r : Users.Repository)
    → lookup u.login r.by_login ≡ none
    → Users.create u p r ≡ (ok tt, added u p r)
unfolding Users.create added
create-added u p r e = rw (Users.create, e) refl

module _ (is_uuid : String → Bool) (byte_length : String → ℕ) where
  register-answered :
      (now : Time) (id : String) (req : RegisterRequest) (s : Service)
      → ltb max_short_db_string_length (byte_length req.login) ≡ false
      → register is_uuid byte_length now id (decoded req) s
        ≡ answered (Auth.register now id req.login req.auth_verifier (profile_of req) s)
  unfolding register decode_error validate_short_string
  register-answered now id req s short = rw (register, short) refl

  register-kept :
      (now : Time) (id : String) (req : RegisterRequest) (s : Service)
      → Auth.register now id req.login req.auth_verifier (profile_of req) s
        ≡ kept
            (user_of now id req)
            s
            (Users.create (user_of now id req) (record (profile_of req) { user_id = id }) s.users)
  unfolding Auth.register
  register-kept now id req s = refl

  register-taken :
      (now : Time) (id : String) (req : RegisterRequest) (s : Service) (taken : User)
      → ltb max_short_db_string_length (byte_length req.login) ≡ false
      → lookup req.login s.users.by_login ≡ some taken
      → register is_uuid byte_length now id (decoded req) s ≡ (failed 409, s)
  unfolding status_of
  register-taken now id req s taken short e =
      register-answered now id req s short
      ∙ ap answered (
          register-kept now id req s
          ∙ ap (kept (user_of now id req) s) (create-taken (user_of now id req) taken _ s.users e))

  register-added :
      (now : Time) (id : String) (req : RegisterRequest) (s : Service)
      → ltb max_short_db_string_length (byte_length req.login) ≡ false
      → lookup req.login s.users.by_login ≡ none
      → register is_uuid byte_length now id (decoded req) s ≡ (
        replied 201 (id, req.login),
        record s {
          users = added (user_of now id req) (record (profile_of req) { user_id = id }) s.users;
        },
      )
  register-added now id req s short e =
      register-answered now id req s short
      ∙ ap answered (
          register-kept now id req s
          ∙ ap (kept (user_of now id req) s) (create-added (user_of now id req) _ s.users e))

  register-long :
      (now : Time) (id : String) (req : RegisterRequest) (s : Service)
      → ltb max_short_db_string_length (byte_length req.login) ≡ true
      → register is_uuid byte_length now id (decoded req) s ≡ (failed 400, s)
  unfolding register decode_error validate_short_string status_of
  register-long now id req s long = rw (register, long) refl

  -- After a registration that is replied 201, with the new id and the login that was asked for, another
  -- one under the same login is replied 409 and changes nothing, whatever else it holds.
  pub register_twice :
      (now later : Time) (id other : String) (req again : RegisterRequest) (s : Service)
      (answer : String × String)
      → (register is_uuid byte_length now id (decoded req) s).0 ≡ replied 201 answer
      → again.login ≡ req.login
      → let s' = (register is_uuid byte_length now id (decoded req) s).1 in
        (answer ≡ (id, req.login))
        × (register is_uuid byte_length later other (decoded again) s' ≡ (failed 409, s'))
  unfolding added
  register_twice now later id other req again s answer done same =
      elim (Bool-cases (ltb max_short_db_string_length (byte_length req.login))) [
        | inl t ↦ let e = register-long now id req s t in absurd (ground (arith, e))
        | inr short ↦ elim (Option-cases (lookup req.login s.users.by_login)) [
          | inr (x, e) ↦ let f = register-taken now id req s x short e in absurd (ground (arith, f))
          | inl e ↦
              let u = user_of now id req in
              let first = register-added now id req s short e in
              let found : lookup again.login (insert req.login u s.users.by_login) ≡ some u =
                rw same (lookup-insert_self req.login u s.users.by_login) in
              (
                ground (arith, first),
                rw first (register-taken later other again _ u (rw same short) found),
              )
        ]
      ]
