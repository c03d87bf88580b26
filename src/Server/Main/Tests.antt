-- ===== src/Server/Main/Tests.antt =====
-- A gateway whose environment names its control plane, with two callers.
use tty_gateway.Base.{ℕ, ◌≡◌, refl, true, none, some, List, [], ◌∷◌, codes, ◌==◌}
use tty_gateway.Base.Results.{ok}
use tty_gateway.Base.Action.{◌>>=◌}
use tty_gateway.Transport.Tls.{
  install_crypto_provider, build_server_config, self_signed_server_config,
}
use tty_gateway.Transport.Tls.Tests.{plain, started}
use tty_gateway.Transport.Endpoint.{accept, accept_control, bind, bind_self_signed}
use tty_gateway.Server.Config.{certificate, authority, control_plane, load}
use tty_gateway.Server.Config.Tests.{host, url-ne-empty, key-ne-empty}
use tty_gateway.Server.HttpHook.{session_open, authorize as http_authorize, Http, new}
use tty_gateway.Server.Start.{build_server, accept_rounds, serve}
use tty_gateway.Server.Start.Tests.{calls, up}
use tty_gateway.Server.Main.{Running, main, auth_hook}
use tty_gateway.Server.Main.Authorized.{LetIn, negotiate-main}
use tty_gateway.Proto.Frame.{hello, open_shell, password}
use tty_gateway.Core.Registry.{create, new as new_manager}
use tty_gateway.Ssh.Open.{connect, authenticate, finish_open, open_with}
use tty_gateway.Server.Conn.{Conn, Env, recv, send}
use tty_gateway.Server.Signer.{open_for_auth}
use tty_gateway.Server.Negotiate.{Negotiated, negotiate}
use tty_gateway.Server.Tests.{willing, target}
use tty_gateway.Quota.Hook.{Entitlement}

abbrev gold : Entitlement
gold = record { max_bytes_per_sec = some 1000; max_sessions = some 5 }

-- A control plane that allows everyone; a response is its status.
abbrev plane : Http (List ℕ) ℕ
plane = record {
  send = λ url key body w. (ok 200, w);
  is_success = λ response. response == 200;
  status = λ response. codes "status";
  json_authorize =
      λ response w. (ok (record { allowed = true; reason = none; entitlement = gold }), w);
  json_session_open = λ response w. (ok (record { allowed = true; reason = none }), w);
}

-- The gateway after three rounds, without a `--config`.
abbrev running : Running (List ℕ) ℕ ℕ ℕ ℕ
running = record {
  gateway = up;
  hook = auth_hook plane (control_plane (codes "http://cp") (some (codes "k")));
}

runs : main host plane (plain (List ℕ)) calls 3 none (started (0 ∷ 5 ∷ [])) ≡ ok running
unfolding main load serve authority build_server bind bind_self_signed self_signed_server_config
    build_server_config install_crypto_provider certificate accept_rounds accept accept_control
    ◌>>=◌
runs = refl

-- A connection of this gateway, and a client that logs in by a password.
abbrev serving : Env (List ℕ) ℕ ℕ ℕ ℕ ℕ
serving = record {
  wait = λ w. w;
  gone = codes "closed";
  send = λ frame w. (ok tt, w);
  hook = running.hook;
  russh = willing;
  spawn = λ ssh w. (record { input = 5; server_fingerprint = ssh.server_fingerprint }, w);
  new_session_id = λ w. (7, w);
  new_resume_token = λ w. (1 ∷ 2 ∷ [], w);
  send_input = λ tx input w. (true, w);
  debug = λ frame. codes "frame";
  others = λ w m. m;
}

abbrev client : Conn (List ℕ) ℕ
client = record {
  world = [];
  manager = new_manager ℕ;
  inbox =
      hello 1 (codes "ipad") none (some (codes "tok"))
      ∷ open_shell target (password (codes "pw")) 80 24
      ∷ [];
  log = [];
}

abbrev let_in : Negotiated
let_in = record { session = 0; entitlement = gold; account_token = some (codes "tok") }

lets_in : (negotiate serving client).0 ≡ ok (some let_in)
unfolding negotiate recv send ◌>>=◌ open_for_auth connect authenticate finish_open open_with create
    auth_hook http_authorize session_open
lets_in = refl

negotiate-main_example :
    LetIn plane (new (codes "http://cp") (some (codes "k"))) serving client let_in
negotiate-main_example =
    negotiate-main host plane (plain (List ℕ)) calls 3 none (started (0 ∷ 5 ∷ [])) running
      (codes "http://cp") (codes "k") serving client let_in refl url-ne-empty refl key-ne-empty runs
      refl lets_in
