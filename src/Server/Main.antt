-- ===== src/Server/Main.antt =====
-- crates/gw-server/src/main.rs: the program, from its command line to the clients that it serves. What is
-- said to the control plane goes to the same world as all else.
pub mod Authorized
mod Tests
use tty_gateway.Base.{ℕ, Option, none, some, Text, codes}
use tty_gateway.Base.Results.{Result, ok, err}
use tty_gateway.Quota.Hook.{AuthHook, allow_all}
use tty_gateway.Transport.Tls.{Process, TlsLib}
use tty_gateway.Transport.Endpoint.{Quinn}
use tty_gateway.Server.Config.{Config, Host, load, Authority, control_plane, everyone, authority}
use tty_gateway.Server.HttpHook.{Http, http_hook}
use tty_gateway.Server.HttpHook
use tty_gateway.Server.Start.{Gateway, serve}

-- `Cli`: the argument of `--config`, which may be left out.
unfoldable pub config_path : Option Text → Text
config_path none = codes "shark-gateway.toml"
config_path (some path) = path

-- The gateway and the hook that each of its connections is given.
pub record Running (W End Con Snd Rcv : Type 0) : Type 0 where
  pub gateway : Gateway W End Con Snd Rcv
  pub hook : AuthHook W

module _ {W Resp : Type 0} (http : Http W Resp) where
  unfoldable pub auth_hook : Authority → AuthHook W
  auth_hook (control_plane base key) = http_hook http (HttpHook.new base key)
  auth_hook everyone = allow_all

module _ {W Resp Cert Key ServerTls ClientTls Roots SC CC Transport End Inc Con Snd Rcv : Type 0}
    (host : Host) (http : Http W Resp)
    (lib : TlsLib W Cert Key ServerTls ClientTls Roots SC CC Transport)
    (q : Quinn W SC CC End Inc Con Snd Rcv) where
  -- `serve(config, hook).await`
  serve_with : ℕ → Config → AuthHook W → Process W → Result Text (Running W End Con Snd Rcv)
  serve_with rounds config hook p = elim (serve host lib q rounds config p) [
    | ok gateway ↦ ok (record { gateway = gateway; hook = hook })
    | err e ↦ err e
  ]

  -- `main`, looked at after so many rounds of the accept loop.
  unfoldable pub main : ℕ → Option Text → Process W → Result Text (Running W End Con Snd Rcv)
  unfolding serve_with
  main rounds argument p = elim (load host (config_path argument)) [
    | ok config ↦ serve_with rounds config (auth_hook http (authority config)) p
    | err e ↦ err e
  ]
