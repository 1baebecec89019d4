-- ===== src/Client/Cli/Accounts.antt =====
-- internal/client/cli: login.go, logout.go and register.go.
use voldepass.Prelude.{String, List}
use voldepass.Domain.{Bytes, Result}
use voldepass.Client.Crypto.Strength.{Unicode, evaluate_password_strength}
use voldepass.Client.Session
use voldepass.Client.Session.{Syncer}
use voldepass.Client.Cli.{Setup, Env, transport, Machine, leave, open_session, open_new_session}
use voldepass.Client.Cli.Commands.{with_session, closing}

module _ (c : Setup) where
  -- runLogin
  unfoldable pub run_login : Env → String → Bytes → Machine c → Result (Unit {0}) × Machine c
  run_login env login password m =
      with_session c (open_session c env login password m) (closing c env tt)

  -- runLogout
  unfoldable pub run_logout : Env → String → Bytes → Machine c → Result (Unit {0}) × Machine c
  run_logout env login password m = with_session c (open_session c env login password m) λ b.
      let (closed, passed, b') =
        Session.close_without_sync c.random c.gcm c.state_json c.envelope_json (transport c) c.uuid
          env.system
          (Session.clear_tokens c.random c.gcm c.state_json c.envelope_json (transport c) c.uuid
            b) in
      (closed, leave c b')

  -- runRegister, with the warnings that it prints
  unfoldable pub run_register :
      Unicode → Env → String → Bytes → Machine c → List String × Result (Unit {0}) × Machine c
  run_register unicode env login password m =
      let (registered, m') =
        with_session c (open_new_session c login password m) (closing c env tt) in
      ((evaluate_password_strength unicode password).feedback, registered, m')
