-- ===== src/Server/Concurrent.antt =====
-- The connections of crates/gw-server/src/lib.rs `serve` that are served at the same time, each by
-- `handle_connection` of handler.rs after its negotiation, over the one session manager. Whoever acts next is
-- arbitrary: a task of a connection, the ingest task of a session, or a connection that begins or
-- removes a session.
pub mod Invariant
pub mod Tied
pub mod Delivered
mod Tests
use tty_gateway.Base.{ℕ, Option, none, some, List, [], ◌∷◌, ◌++◌, Bytes, get_elem?, set}
use tty_gateway.Proto.Frame.{ClientFrame}
use tty_gateway.Core.Registry.{SessionManager, SshHandle, create, remove, ingest, ingest_end}
use tty_gateway.Quota.Float.{Float}
use tty_gateway.Server.Conn.{Conn, Env}
use tty_gateway.Server.Negotiate.{Negotiated}
use tty_gateway.Server.Serve.{Serving, Turn, take_turn, begin}

module _ {W Tx H C K P : Type 0} (f : Float) (now : W → ℕ) (env : Env W Tx H C K P) where
  -- A connection sees the manager when it takes a turn; in between its own is out of date.
  pub record Connections : Type 0 where
    pub manager : SessionManager Tx
    pub served : List (Serving f now env)

  pub data Act : Type 0 where
    -- the connection at this place takes a turn
    takes : ℕ → Turn f now env → Act
    -- a connection is served from here on, with what its client will send
    attaches : Negotiated → W → List ClientFrame → Act
    -- the target's output and its end, for the session at an address
    puts_out : ℕ → Bytes → Act
    ends : ℕ → Act
    -- a connection that negotiates or is torn down
    creates : ℕ → Bytes → SshHandle Tx → Act
    removes : ℕ → Act

  abbrev pub seeing : SessionManager Tx → Serving f now env → Serving f now env
  seeing m s = record s { conn = record s.conn { manager = m } }

  -- The log is that of serving alone.
  abbrev pub attached : Negotiated → W → List ClientFrame → SessionManager Tx → Serving f now env
  attached n w frames m =
      begin f now env n (record { world = w; manager = m; inbox = frames; log = [] })

  turned : Connections → ℕ → Turn f now env → Option (Serving f now env) → Connections
  turned g i t none = g
  turned g i t (some s) =
      let s' = take_turn f now env t (seeing g.manager s) in
      record { manager = s'.conn.manager; served = set g.served i s' }

  unfoldable pub step : Connections → Act → Connections
  unfolding turned
  step g (takes i t) = turned g i t (get_elem? g.served i)
  step g (attaches n w frames) = record g {
    served = g.served ++ (attached n w frames g.manager ∷ []);
  }
  step g (puts_out session bytes) = record g { manager = ingest g.manager session bytes }
  step g (ends session) = record g { manager = ingest_end g.manager session }
  step g (creates id token ssh) = record g { manager = (create g.manager id token ssh).0 }
  step g (removes id) = record g { manager = remove g.manager id }

  unfoldable pub run : List Act → Connections → Connections
  unfolding step
  run [] g = g
  run (a ∷ acts) g = run acts (step g a)
