-- ===== src/Server/Config/Tests.antt =====
-- A host whose environment names a control plane.
use tty_gateway.Base.{◌≡◌, ◌≢◌, refl, false, some, [], codes, arith, if◌then◌else◌}
use tty_gateway.Base.Map.{beq_bytes}
use tty_gateway.Base.Results.{ok, err}
use tty_gateway.Server.Config.{
  Config, Host, default_config, load, everyone, authority, self_signed, certificate,
}

abbrev pub host : Host
host = record {
  exists = λ path. false;
  read_to_string = λ path. err (codes "no file");
  from_str = λ text. ok default_config;
  var = λ name.
      if beq_bytes name (codes "SHARK_CONTROL_PLANE_URL")
      then some (codes "http://cp")
      else some (codes "k");
}

abbrev from_environment : Config
from_environment = record default_config {
  control_plane_url = some (codes "http://cp");
  gateway_key = some (codes "k");
}

loads : load host (codes "a.toml") ≡ ok from_environment
unfolding load
loads = refl

by_default : authority default_config ≡ everyone
unfolding authority
by_default = refl

-- A certificate without its key is not used.
no_key : certificate (record default_config { tls_cert = some (codes "c.pem") }) ≡ self_signed
unfolding certificate
no_key = refl

pub url-ne-empty : codes "http://cp" ≢ []
url-ne-empty e = ground arith

pub key-ne-empty : codes "k" ≢ []
key-ne-empty e = ground arith
