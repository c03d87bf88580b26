-- ===== src/Server/Config.antt =====
-- crates/gw-server/src/config.rs, and what crates/gw-server/src/main.rs and lib.rs decide by it. The file
-- system, the environment and `toml` are parameters.
pub mod Load
pub mod Tests
use tty_gateway.Base.{
  ℕ, Bool, true, false, Option, none, some, List, [], ◌∷◌, ◌++◌, Text, codes, if◌then◌else◌,
}
use tty_gateway.Base.Results.{Result, ok, err}
use tty_gateway.Transport.Endpoint.{SocketAddr}

pub record Config : Type 0 where
  pub listen : SocketAddr
  pub tls_cert : Option Text
  pub tls_key : Option Text
  pub auth_webhook_url : Option Text
  pub control_plane_url : Option Text
  pub gateway_key : Option Text

-- `gw_transport::DEFAULT_PORT`
abbrev pub default_port : ℕ
default_port = 4433

abbrev pub default_config : Config
default_config = record {
  listen = record { host = 0 ∷ 0 ∷ 0 ∷ 0 ∷ []; port = default_port };
  tls_cert = none;
  tls_key = none;
  auth_webhook_url = none;
  control_plane_url = none;
  gateway_key = none;
}

-- What `load` reads. A file or a variable is there or not; an error is its text.
pub record Host : Type 0 where
  pub exists : Text → Bool
  pub read_to_string : Text → Result Text Text
  -- `toml::from_str`, fields that are missing taken from the default
  pub from_str : Text → Result Text Config
  pub var : Text → Option Text

-- A variable that is set and not empty, in place of what the file says.
unfoldable pub override : Option Text → Option Text → Option Text
override none old = old
override (some []) old = old
override (some (b ∷ bs)) old = some (b ∷ bs)

module _ (host : Host) where
  parsed : Text → Result Text Config → Result Text Config
  parsed path (ok config) = ok config
  parsed path (err _) = err (codes "parsing config " ++ path)

  from_file : Text → Result Text Text → Result Text Config
  unfolding parsed
  from_file path (err _) = err (codes "reading config " ++ path)
  from_file path (ok text) = parsed path (host.from_str text)

  overridden : Result Text Config → Result Text Config
  unfolding override
  overridden (err e) = err e
  overridden (ok config) = ok (record config {
    control_plane_url =
        override (host.var (codes "SHARK_CONTROL_PLANE_URL")) config.control_plane_url;
    gateway_key = override (host.var (codes "SHARK_GATEWAY_KEY")) config.gateway_key;
  })

  -- `Config::load`
  unfoldable pub load : Text → Result Text Config
  unfolding from_file overridden
  load path =
      overridden
        (if host.exists path then from_file path (host.read_to_string path) else ok default_config)

-- `main`: what the clients are authorized by.
pub data Authority : Type 0 where
  -- base, key
  control_plane : Text → Option Text → Authority
  everyone : Authority

or_else : Option Text → Option Text → Option Text
or_else none b = b
or_else (some a) b = some a

authority_at : Option Text → Option Text → Authority
authority_at none key = everyone
authority_at (some base) key = control_plane base key

unfoldable pub authority : Config → Authority
unfolding or_else authority_at
authority config =
    authority_at (or_else config.control_plane_url config.auth_webhook_url) config.gateway_key

-- `build_server`: the paths of a configured certificate and its key, or a certificate of its own.
pub data Certificate : Type 0 where
  configured : Text → Text → Certificate
  self_signed : Certificate

unfoldable pub certificate_of : Option Text → Option Text → Certificate
certificate_of (some cert) (some key) = configured cert key
certificate_of (some cert) none = self_signed
certificate_of none key = self_signed

unfoldable pub certificate : Config → Certificate
unfolding certificate_of
certificate config = certificate_of config.tls_cert config.tls_key
