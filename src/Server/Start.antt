-- ===== src/Server/Start.antt =====
-- crates/gw-server/src/lib.rs: `build_server`, and `serve` up to the connections that it spawns.
pub mod Bound
pub mod Accepts
pub mod Tests
use tty_gateway.Base.{
  ℕ, zero, suc, Bool, true, false, Option, none, some, List, [], ◌∷◌, ◌++◌, Text, codes,
  if◌then◌else◌,
}
use tty_gateway.Base.Results.{Result, ok, err}
use tty_gateway.Base.Action.{Action, pure, raise, lift, failing, continue, ◌>>=◌, ◌>>◌}
use tty_gateway.Transport.Framed.{TransportError}
use tty_gateway.Transport.Tls.{Process, TlsLib, explain, server_config_from_pem}
use tty_gateway.Transport.Endpoint.{
  SocketAddr, Quinn, ClientConnection, bind, bind_self_signed, accept, within,
}
use tty_gateway.Server.Config.{Config, Host, Certificate, configured, self_signed, certificate}

module _ {W Cert Key ServerTls ClientTls Roots SC CC Transport End Inc Con Snd Rcv : Type 0}
    (host : Host) (lib : TlsLib W Cert Key ServerTls ClientTls Roots SC CC Transport)
    (q : Quinn W SC CC End Inc Con Snd Rcv) where
  -- Of the texts of the certificate and the key.
  bind_pem : SocketAddr → Text → Text → Action Text (Process W) End
  bind_pem listen cert key = do
    config ← server_config_from_pem lib cert key
    failing (λ _. codes "bind QUIC endpoint") (within (bind q listen config))

  bind_files : SocketAddr → Text → Text → Action Text (Process W) End
  unfolding bind_pem
  bind_files listen cert_path key_path = do
    cert ← lift (explain (codes "read tls_cert " ++ cert_path) (host.read_to_string cert_path))
    key ← lift (explain (codes "read tls_key " ++ key_path) (host.read_to_string key_path))
    bind_pem listen cert key

  bind_generated : SocketAddr → Action Text (Process W) End
  bind_generated listen = do
    (server, _) ←
        failing (λ _. codes "bind QUIC endpoint (self-signed)") (bind_self_signed lib q listen)
    pure server

  bind_with : SocketAddr → Certificate → Action Text (Process W) End
  unfolding bind_files bind_generated
  bind_with listen (configured cert_path key_path) = bind_files listen cert_path key_path
  bind_with listen self_signed = bind_generated listen

  unfoldable pub build_server : Config → Action Text (Process W) End
  unfolding bind_with
  build_server config = bind_with config.listen (certificate config)

-- `serve` after the endpoint is bound: the world, the clients for which `handle_connection` was spawned,
-- each with the one manager and the one hook, and whether the loop goes on.
pub record Gateway (W End Con Snd Rcv : Type 0) : Type 0 where
  pub world : W
  pub server : End
  pub spawned : List (ClientConnection Con Snd Rcv)
  pub serving : Bool

module _ {W SC CC End Inc Con Snd Rcv : Type 0} (q : Quinn W SC CC End Inc Con Snd Rcv) where
  abbrev Accepted : Type 0
  Accepted = Option (Result TransportError (ClientConnection Con Snd Rcv))

  accepted : Gateway W End Con Snd Rcv → Accepted × W → Gateway W End Con Snd Rcv
  accepted g (none, w) = record g { world = w; serving = false }
  accepted g (some (ok client), w) = record g { world = w; spawned = g.spawned ++ (client ∷ []) }
  accepted g (some (err _), w) = record g { world = w }

  -- A round of the loop.
  accept_round : Gateway W End Con Snd Rcv → Gateway W End Con Snd Rcv
  unfolding accepted
  accept_round g = if g.serving then accepted g (accept q g.server g.world) else g

  -- The first rounds of the loop.
  unfoldable pub accept_rounds : ℕ → Gateway W End Con Snd Rcv → Gateway W End Con Snd Rcv
  unfolding accept_round
  accept_rounds zero g = g
  accept_rounds (suc n) g = accept_rounds n (accept_round g)

module _ {W Cert Key ServerTls ClientTls Roots SC CC Transport End Inc Con Snd Rcv : Type 0}
    (host : Host) (lib : TlsLib W Cert Key ServerTls ClientTls Roots SC CC Transport)
    (q : Quinn W SC CC End Inc Con Snd Rcv) where
  opened : Process W → End → Gateway W End Con Snd Rcv
  opened p server = record { world = p.world; server = server; spawned = []; serving = true }

  -- `serve`, looked at after so many rounds of its loop.
  unfoldable pub serve : ℕ → Config → Process W → Result Text (Gateway W End Con Snd Rcv)
  unfolding opened
  serve rounds config p =
      let (r, p') = build_server host lib q config p in
      elim r [ ok server ↦ ok (accept_rounds q rounds (opened p' server)) | err e ↦ err e ]
