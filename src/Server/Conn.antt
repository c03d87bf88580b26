-- ===== src/Server/Conn.antt =====
-- The state that one client connection works on (crates/gw-server/src/handler.rs): the world outside,
-- whose every answer is the environment's, the session manager that it shares with the other
-- connections, and a log of what it did, which only the theorems read.
pub mod Says
use tty_gateway.Base.{ℕ, Option, Bool, List, [], ◌∷◌, ◌++◌, Bytes, Text}
use tty_gateway.Base.Results.{Result, ok, err}
use tty_gateway.Base.Action.{Action}
use tty_gateway.Proto.Frame.{ClientFrame, ServerFrame}
use tty_gateway.Core.Registry.{SessionManager, SshHandle}
use tty_gateway.Quota.Hook.{Entitlement, Answer, AuthHook}
use tty_gateway.Ssh.Client.{SshTarget, SshInput, Russh, SshSession}

-- What the connection did, oldest first.
pub data Event : Type 0 where
  -- a frame that was handed to `FramedSend::send`, which may fail
  sent : ServerFrame → Event
  dialed : SshTarget → Event
  -- the client's name and account that `authorize` was asked for
  authorized : Text → Option Bytes → Event
  -- the account, session id and client's name of `session_open`
  opened : Option Bytes → Text → Text → Event
  -- input that was handed to `Session::send_input`, which refuses it when the SSH task has ended
  forwarded : SshInput → Event
  -- the account and session id of `session_close`, and of `report_usage` with its bytes in and out
  closed : Option Bytes → Text → Event
  reported : Option Bytes → Text → ℕ → ℕ → Event

pub record Conn (W Tx : Type 0) : Type 0 where
  pub world : W
  pub manager : SessionManager Tx
  -- The frames that the client still sends; after the last, `recv` fails: the client is gone.
  pub inbox : List ClientFrame
  pub log : List Event

-- What the handler calls. `W` is the state of all that it calls, `Tx` the sender of a session's input.
pub record Env (W Tx H C K P : Type 0) : Type 0 where
  -- Waiting in `FramedRecv::recv`, and the text of its error when the client is gone.
  pub wait : W → W
  pub gone : Text
  -- `FramedSend::send`; an error is its text.
  pub send : ServerFrame → Action Text W (Unit {0})
  pub hook : AuthHook W
  pub russh : Russh W H C K P
  -- `SshSession::spawn`, `uuid::Uuid::new_v4` and `rand::random`.
  pub spawn : SshSession H C → W → SshHandle Tx × W
  pub new_session_id : W → ℕ × W
  pub new_resume_token : W → Bytes × W
  -- `session.input.send(input).await.is_ok()`
  pub send_input : Tx → SshInput → W → Bool × W
  -- The `Debug` text of a frame.
  pub debug : ClientFrame → Text
  -- What the other connections and the ingest tasks have done to the manager while this one waited.
  pub others : W → SessionManager Tx → SessionManager Tx

abbrev pub note : {W Tx : Type 0} → Event → Conn W Tx → Conn W Tx
note e c = record c { log = c.log ++ (e ∷ []) }

module _ {W Tx H C K P : Type 0} (env : Env W Tx H C K P) where
  -- A call that waits: meanwhile the others run.
  abbrev pub await : (A : Type 0) → (W → A × W) → Conn W Tx → A × Conn W Tx
  await A op c =
      let (a, w) = op c.world in (a, record c { world = w; manager = env.others w c.manager })

  -- A call that does not wait.
  abbrev pub call : (A : Type 0) → (W → A × W) → Conn W Tx → A × Conn W Tx
  call A op c = let (a, w) = op c.world in (a, record c { world = w })

  -- The calls of the hook, each of which is in the log with what it asks.
  abbrev pub ask_authorize : Text → Option Bytes → Conn W Tx → Answer Entitlement × Conn W Tx
  ask_authorize client_name account c =
      await (Answer Entitlement) (λ w. env.hook.authorize w client_name account)
        (note (authorized client_name account) c)

  abbrev pub ask_session_open :
      Option Bytes → Text → Text → Conn W Tx → Answer (Unit {0}) × Conn W Tx
  ask_session_open account id client_name c =
      await (Answer (Unit {0})) (λ w. env.hook.session_open w account id client_name)
        (note (opened account id client_name) c)

  abbrev pub tell_session_close : Option Bytes → Text → Conn W Tx → Conn W Tx
  tell_session_close account id c =
      (await (Unit {0}) (λ w. (tt, env.hook.session_close w account id))
        (note (closed account id) c)).1

  abbrev pub tell_usage : Option Bytes → Text → ℕ → ℕ → Conn W Tx → Conn W Tx
  tell_usage account id bytes_in bytes_out c =
      (await (Unit {0}) (λ w. (tt, env.hook.report_usage w account id bytes_in bytes_out))
        (note (reported account id bytes_in bytes_out) c)).1

  taken : List ClientFrame → Conn W Tx → Result Text ClientFrame × Conn W Tx
  taken [] c = (err env.gone, c)
  taken (frame ∷ frames) c = (ok frame, record c { inbox = frames })

  unfoldable pub recv : Action Text (Conn W Tx) ClientFrame
  unfolding taken
  recv c = taken c.inbox (await (Unit {0}) (λ w. (tt, env.wait w)) c).1

  unfoldable pub send : ServerFrame → Action Text (Conn W Tx) (Unit {0})
  send frame c = await (Result Text (Unit {0})) (env.send frame) (note (sent frame) c)
