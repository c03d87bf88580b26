-- ===== src/Server/Rely.antt =====
-- What one connection may rely on while it waits, and that it gives the other connections the same: the
-- sessions of the manager only evolve.
use tty_gateway.Base.{ℕ}
use tty_gateway.Base.Action.Keeps.{IsPreorder, Keeps}
use tty_gateway.Proto.Frame.{TargetSpec, AuthIntent, ServerFrame}
use tty_gateway.Core.Registry.{SessionManager}
use tty_gateway.Core.Registry.Evolves.{Evolves, Evolves-refl, Evolves-trans}
use tty_gateway.Server.Conn.{Conn, Env, await, recv, send}
use tty_gateway.Server.Signer.{open_for_auth}
use tty_gateway.Server.Wait.{
  Across-IsPreorder, await-Across, send-Keeps as send-Across, recv-Keeps as recv-Across,
  open_for_auth-Across,
}

module _ {Tx : Type 0} where
  pub Evolves-IsPreorder : IsPreorder (Evolves {Tx = Tx})
  Evolves-IsPreorder = record { same = Evolves-refl; trans = λ m k l p q. Evolves-trans p q }

module _ {W Tx : Type 0} where
  -- The sessions that `c` shares have only evolved in `d`.
  abbrev pub EvolvesIn : Conn W Tx → Conn W Tx → Type 0
  EvolvesIn c d = Evolves c.manager d.manager

-- The others keep to it.
pub record IsFair {W Tx H C K P : Type 0} (env : Env W Tx H C K P) : Type 0 where
  pub others : (w : W) (m : SessionManager Tx) → Evolves m (env.others w m)

module _ {W Tx H C K P : Type 0} (env : Env W Tx H C K P) (fair : IsFair env) where
  pub EvolvesIn-IsPreorder : IsPreorder (EvolvesIn {W = W} {Tx = Tx})
  EvolvesIn-IsPreorder = Across-IsPreorder env Evolves Evolves-IsPreorder fair.others

  pub await-EvolvesIn :
      (A : Type 0) (op : W → A × W) (c : Conn W Tx) → EvolvesIn c (await env A op c).1
  await-EvolvesIn = await-Across env Evolves Evolves-IsPreorder fair.others

  pub send-Keeps : (frame : ServerFrame) → Keeps EvolvesIn (send env frame)
  send-Keeps = send-Across env Evolves Evolves-IsPreorder fair.others

  pub recv-Keeps : Keeps EvolvesIn (recv env)
  recv-Keeps = recv-Across env Evolves Evolves-IsPreorder fair.others

  pub open_for_auth-EvolvesIn :
      (target : TargetSpec) (auth : AuthIntent) (cols rows : ℕ) (c : Conn W Tx)
      → EvolvesIn c (open_for_auth env target auth cols rows c).1
  open_for_auth-EvolvesIn = open_for_auth-Across env Evolves Evolves-IsPreorder fair.others
