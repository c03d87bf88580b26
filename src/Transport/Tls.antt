-- ===== src/Transport/Tls.antt =====
-- crates/gw-transport/src/tls.rs. `rustls`, `rustls_pemfile`, `rcgen` and `quinn` are parameters: their
-- types, and their calls with the text of an error. A process has the flag of `CRYPTO_INIT`, and a list
-- of the calls that need the provider or install it, which only the theorems read.
pub mod Provider
pub mod Pem
pub mod Tests
use tty_gateway.Base.{
  ℕ, ◌*◌, Bool, true, false, Option, none, some, List, [], ◌∷◌, ◌++◌, Bytes, Text, codes,
  if◌then◌else◌,
}
use tty_gateway.Base.Results.{Result, ok, err, map_err}
use tty_gateway.Base.Action.{Action, pure, raise, lift, failing, continue, ◌>>=◌, ◌>>◌}

-- `ALPN`
abbrev pub alpn : Bytes
alpn = codes "sharkgw/1"

pub data Call : Type 0 where
  installs_provider builds_server builds_client : Call

pub record Process (W : Type 0) : Type 0 where
  pub world : W
  pub crypto_init : Bool
  pub calls : List Call

-- A certificate, a private key, the configurations of rustls, and those of quinn.
pub record TlsLib
    (W Cert Key ServerTls ClientTls Roots ServerConfig ClientConfig Transport : Type 0)
    : Type 0 where
  pub install_default : W → W
  -- `generate_simple_self_signed`: the certificate and the DER of its key pair
  pub generate : List Text → W → Result Text (Cert × Bytes) × W
  -- `PrivateKeyDer::Pkcs8`
  pub pkcs8 : Bytes → Key
  pub certs : Bytes → Result Text (List Cert)
  pub private_key : Bytes → Result Text (Option Key)
  pub with_single_cert : List Cert → Key → W → Result Text ServerTls
  pub server_alpn : List Bytes → ServerTls → ServerTls
  -- `QuicServerConfig::try_from` and `ServerConfig::with_crypto`
  pub quic_server : ServerTls → Result Text ServerConfig
  pub server_transport : Transport → ServerConfig → ServerConfig
  pub no_roots : Roots
  pub add_root : Cert → Roots → Result Text Roots
  pub with_root_certificates : Roots → W → ClientTls
  pub client_alpn : List Bytes → ClientTls → ClientTls
  pub quic_client : ClientTls → Result Text ClientConfig
  pub client_transport : Transport → ClientConfig → ClientConfig
  pub default_transport : Transport
  -- in milliseconds
  pub max_idle_timeout : Option ℕ → Transport → Transport
  pub keep_alive_interval : Option ℕ → Transport → Transport

-- `with_context`: the text of the error is that of the context.
abbrev pub explain : {A : Type 0} → Text → Result Text A → Result Text A
explain text r = map_err (λ _. text) r

abbrev pub note : {W : Type 0} → Call → Process W → Process W
note call p = record p { calls = p.calls ++ (call ∷ []) }

module _ {W Cert Key ServerTls ClientTls Roots ServerConfig ClientConfig Transport : Type 0}
    (lib : TlsLib W Cert Key ServerTls ClientTls Roots ServerConfig ClientConfig Transport) where
  -- `CRYPTO_INIT.call_once`
  unfoldable pub install_crypto_provider : Action Text (Process W) (Unit {0})
  install_crypto_provider p = if p.crypto_init then (ok tt, p) else (
    ok tt,
    note installs_provider (record p { world = lib.install_default p.world; crypto_init = true }),
  )

  abbrev pub idle_timeout : ℕ
  idle_timeout = 30 * 1000

  abbrev pub transport : Transport
  transport =
      lib.keep_alive_interval (some (10 * 1000))
        (lib.max_idle_timeout (some idle_timeout) lib.default_transport)

  -- The builder, which takes the provider of the process.
  server_tls : List Cert → Key → Action Text (Process W) ServerTls
  server_tls certs key p = (lib.with_single_cert certs key p.world, note builds_server p)

  unfoldable pub build_server_config : List Cert → Key → Action Text (Process W) ServerConfig
  unfolding server_tls
  build_server_config certs key = do
    rustls_config ← failing (λ _. codes "build server TLS config") (server_tls certs key)
    config ← lift (
        explain (codes "build QUIC server crypto config")
          (lib.quic_server (lib.server_alpn (alpn ∷ []) rustls_config)))
    pure (lib.server_transport transport config)

  generated : Action Text (Process W) (Cert × Bytes)
  generated p =
      let (r, w) = lib.generate (codes "localhost" ∷ []) p.world in
      (explain (codes "generate self-signed certificate") r, record p { world = w })

  unfoldable pub self_signed_server_config : Action Text (Process W) (ServerConfig × Cert)
  unfolding generated
  self_signed_server_config = do
    install_crypto_provider
    (cert, key_der) ← generated
    config ← build_server_config (cert ∷ []) (lib.pkcs8 key_der)
    pure (config, cert)

  -- `ensure!(!certs.is_empty(), …)`
  some_certs : List Cert → Result Text (List Cert)
  some_certs [] = err (codes "no certificates in PEM")
  some_certs (cert ∷ certs) = ok (cert ∷ certs)

  found_key : Option Key → Result Text Key
  found_key none = err (codes "no private key in PEM")
  found_key (some key) = ok key

  unfoldable pub server_config_from_pem : Bytes → Bytes → Action Text (Process W) ServerConfig
  unfolding some_certs found_key
  server_config_from_pem cert_pem key_pem = do
    install_crypto_provider
    parsed ← lift (explain (codes "parse certificate PEM") (lib.certs cert_pem))
    certs ← lift (some_certs parsed)
    parsed_key ← lift (explain (codes "parse private key PEM") (lib.private_key key_pem))
    key ← lift (found_key parsed_key)
    build_server_config certs key

  client_tls : Roots → Action Text (Process W) ClientTls
  client_tls roots p = (ok (lib.with_root_certificates roots p.world), note builds_client p)

  unfoldable pub pinned_client_config : Cert → Action Text (Process W) ClientConfig
  unfolding client_tls
  pinned_client_config server_cert = do
    install_crypto_provider
    roots ← lift (explain (codes "pin server cert") (lib.add_root server_cert lib.no_roots))
    rustls_config ← client_tls roots
    config ← lift (
        explain (codes "build QUIC client crypto config")
          (lib.quic_client (lib.client_alpn (alpn ∷ []) rustls_config)))
    pure (lib.client_transport transport config)
