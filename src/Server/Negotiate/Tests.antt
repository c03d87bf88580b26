-- ===== src/Server/Negotiate/Tests.antt =====
-- A control plane that lets a client log in but not open a session.
use tty_gateway.Base.{ℕ, ◌≡◌, refl, codes}
use tty_gateway.Base.Action.{◌>>=◌}
use tty_gateway.Base.Map.{get}
use tty_gateway.Core.Registry.{create}
use tty_gateway.Core.Registry.Calm.{Calm-IsPreorder}
use tty_gateway.Quota.Hook.{allow_all, denied}
use tty_gateway.Ssh.Open.{connect, authenticate, finish_open, open_with}
use tty_gateway.Server.Conn.{Env, recv, send}
use tty_gateway.Server.Signer.{open_for_auth}
use tty_gateway.Server.Negotiate.{negotiate}
use tty_gateway.Server.Negotiate.Refused.{IsCalm, IsFresh, inner-negotiate}
use tty_gateway.Server.Tests.{server, by_password}

abbrev full : Env (Unit {0}) ℕ ℕ ℕ ℕ ℕ
full = record server {
  hook = record allow_all {
    session_open = λ w token id name. (denied (record { reason = codes "too many sessions" }), w);
  };
}

full-IsCalm : IsCalm full
full-IsCalm = record { others = λ w m. Calm-IsPreorder.same m }

by_password-IsFresh : IsFresh full by_password.manager
unfolding get
by_password-IsFresh = record { ids = λ w. refl; tokens = λ w. refl }

inner-negotiate_example : (negotiate full by_password).1.manager.inner ≡ by_password.manager.inner
unfolding negotiate recv send ◌>>=◌ open_for_auth connect authenticate finish_open open_with create
inner-negotiate_example = inner-negotiate full full-IsCalm by_password by_password-IsFresh refl
