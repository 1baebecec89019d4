-- ===== src/Client/Transport.antt =====
-- internal/client/transport/client.go and auth.go: how the client reads statuses, and how it goes on
-- when its access token is over. What an HTTP request does is a parameter.
pub mod Pinning
use voldepass.Prelude.{ℕ, String, ◌≡◌, ◌⊎◌, inl, inr, eqb, if◌then◌else◌, arith, refl}
use voldepass.Domain.{
  Result, ok, err, Result-cases, Error, not_found, conflict, unauthorized, already_exists,
  rate_limited, invalid_argument, payload_too_large, internal,
}
use voldepass.Server.Rest.{status_of}

-- mapStatusToDomainErr, for a status of at least 400. A status without an error of its own gives
-- an error that is none of the sentinels.
unfoldable pub map_status : ℕ → Error
map_status status =
    if eqb status 404
    then not_found
    else if eqb status 409
    then conflict
    else if eqb status 401
    then unauthorized
    else if eqb status 429
    then rate_limited
    else if eqb status 400
    then invalid_argument
    else internal

-- The errors that the client can tell apart.
abbrev pub seen : Error → Error
seen already_exists = conflict
seen payload_too_large = internal
seen e = e

-- An error of the server's reaches the client as itself, through its status, with two exceptions:
-- a login that exists already is seen as a version conflict, and a body that is too large as an
-- error without a sentinel.
pub map_status-status_of : (e : Error) → map_status (status_of e) ≡ seen e
unfolding map_status status_of
map_status-status_of not_found = refl
map_status-status_of conflict = refl
map_status-status_of unauthorized = refl
map_status-status_of already_exists = refl
map_status-status_of rate_limited = refl
map_status-status_of invalid_argument = refl
map_status-status_of payload_too_large = refl
map_status-status_of internal = refl

-- A server as doJSON and Refresh see it: `send` is an authenticated request with its access token,
-- and `exchange` is the request to /api/v1/refresh.
pub record Http (Request Response : Type 0) : Type 1 where
  pub Server : Type 0
  pub send : String → Request → Server → Result Response × Server
  pub exchange : String → Server → Result (String × String) × Server

-- The tokens of a Client.
pub record Tokens : Type 0 where
  pub access_token : String
  pub refresh_token : String

module _ {Request Response : Type 0} (http : Http Request Response) where
  -- Refresh
  unfoldable pub refresh : Tokens → http.Server → Result (Unit {0}) × Tokens × http.Server
  refresh t server =
      let (r, server') = http.exchange t.refresh_token server in
      elim r [
        | err e ↦ (err e, t, server')
        | ok (access, next) ↦
            (ok tt, record { access_token = access; refresh_token = next }, server')
      ]

  -- The end of doAuthenticatedJSON: after a refresh, the request is sent once more.
  unfoldable pub send_again :
      Request → Result (Unit {0}) × Tokens × http.Server → Result Response × Tokens × http.Server
  send_again req (err _, t, server) = (err unauthorized, t, server)
  send_again req (ok _, t, server) =
      let (r, server') = http.send t.access_token req server in (r, t, server')

  -- doAuthenticatedJSON
  unfoldable pub do_authenticated :
      Request → Tokens → http.Server → Result Response × Tokens × http.Server
  unfolding refresh send_again
  do_authenticated req t server =
      let (r, server') = http.send t.access_token req server in
      elim r [
        | err unauthorized ↦ send_again req (refresh t server')
        | err e ↦ (err e, t, server')
        | ok a ↦ (ok a, t, server')
      ]

  -- A request is given up as unauthorized only if it was refused with the tokens of the session and
  -- then either these could not be exchanged, or it was refused again with the new ones.
  pub do_authenticated-unauthorized :
      (req : Request) (t : Tokens) (server : http.Server)
      → (do_authenticated req t server).0 ≡ err unauthorized
      → let first = http.send t.access_token req server in
        let (refreshed, t', server') = refresh t first.1 in
        (first.0 ≡ err unauthorized)
        × (((e : Error) × (refreshed ≡ err e))
            ⊎ ((http.send t'.access_token req server').0 ≡ err unauthorized))
  unfolding do_authenticated send_again
  do_authenticated-unauthorized req t server h =
      let first = http.send t.access_token req server in
      elim (Result-cases (refresh t first.1).0) [
        | inr (e, f) ↦ (ground arith, inl (e, f))
        | inl (u, f) ↦ (ground arith, inr (ground arith))
      ]
