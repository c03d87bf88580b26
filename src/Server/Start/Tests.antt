-- ===== src/Server/Start/Tests.antt =====
-- A gateway with a certificate and two callers of whom the first fails to connect, and the theorems at it.
use tty_gateway.Base.{
  ℕ, refl, true, false, none, some, List, [], ◌∷◌, Bytes, codes, ◌==◌, if◌then◌else◌,
}
use tty_gateway.Base.Results.{ok, err}
use tty_gateway.Base.Action.{◌>>=◌}
use tty_gateway.Transport.Tls.{install_crypto_provider, build_server_config, server_config_from_pem}
use tty_gateway.Transport.Tls.Tests.{plain, started}
use tty_gateway.Transport.Endpoint.{Quinn, bind, accept, accept_control}
use tty_gateway.Server.Config.{Config, Host, default_config, certificate}
use tty_gateway.Server.Start.{Gateway, build_server, accept_rounds, serve}
use tty_gateway.Server.Start.Bound.{Bound, build_server-Bound}
use tty_gateway.Server.Start.Accepts.{Serves, serve-Serves}

-- The world is the list of those who call; nobody hears from 0 again.
abbrev pub calls : Quinn (List ℕ) Bytes Bytes ℕ ℕ ℕ ℕ ℕ
calls = record {
  server = λ config addr w. (ok 9, w);
  client = λ addr w. (ok 8, w);
  set_default_client_config = λ config endpoint. endpoint;
  local_addr = λ endpoint w. (ok (record { host = []; port = 1 }), w);
  accept = λ endpoint w. elim w [ [] ↦ (none, []) | x ∷ xs ↦ (some x, xs) ];
  handshake = λ incoming w. (if incoming == 0 then err (codes "timed out") else ok incoming, w);
  accept_bi = λ conn w. (ok (conn, conn), w);
  connect = λ endpoint addr name w. (ok 1, w);
  connected = λ incoming w. (ok 1, w);
  open_bi = λ conn w. (ok (conn, conn), w);
  remote_address = λ conn w. record { host = []; port = conn };
  close = λ code reason endpoint w. w;
  wait_idle = λ endpoint w. w;
}

abbrev files : Host
files = record {
  exists = λ path. true;
  read_to_string = λ path. ok path;
  from_str = λ text. ok default_config;
  var = λ name. none;
}

abbrev with_cert : Config
with_cert = record default_config { tls_cert = some (codes "cert"); tls_key = some (codes "key") }

build_server-Bound_example : Bound files (plain (List ℕ)) calls with_cert (started (0 ∷ 5 ∷ [])) 9
unfolding build_server server_config_from_pem build_server_config install_crypto_provider bind
    certificate ◌>>=◌
build_server-Bound_example =
    build_server-Bound files (plain (List ℕ)) calls with_cert (started (0 ∷ 5 ∷ [])) 9 refl

-- The gateway after three rounds.
abbrev pub up : Gateway (List ℕ) ℕ ℕ ℕ ℕ
up = record {
  world = [];
  server = 9;
  spawned = record { conn = 5; send = 5; recv = 5 } ∷ [];
  serving = false;
}

serve-Serves_example : Serves files (plain (List ℕ)) calls 3 with_cert (started (0 ∷ 5 ∷ [])) up
unfolding serve build_server server_config_from_pem build_server_config install_crypto_provider bind
    certificate accept_rounds accept accept_control ◌>>=◌
serve-Serves_example =
    serve-Serves files (plain (List ℕ)) calls 3 with_cert (started (0 ∷ 5 ∷ [])) up refl
