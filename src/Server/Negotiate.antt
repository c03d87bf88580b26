-- ===== src/Server/Negotiate.antt =====
-- `negotiate` of crates/gw-server/src/handler.rs: the exchange of `Hello` and `Open`, step by step.
pub mod Login
pub mod Conversation
pub mod Protocol
pub mod Refused
pub mod Admitted
mod Tests
use tty_gateway.Base.{
  ℕ, Bool, true, false, Option, none, some, ◌++◌, Bytes, Text, codes, decimal, if◌then◌else◌, ◌==◌,
}
use tty_gateway.Base.Results.{Result, ok, err}
use tty_gateway.Base.Action.{Action, pure, continue, ◌>>=◌, ◌>>◌}
use tty_gateway.Proto.Frame.{
  protocol_version, ResumeToken, TargetSpec, AuthIntent, ClientFrame, hello, open_shell, live,
  welcome, status, error,
}
use tty_gateway.Core.Registry.{create, resume, remove, id_of, token_of}
use tty_gateway.Quota.Hook.{Entitlement, denied_text, Answer, allowed, denied}
use tty_gateway.Ssh.Client.{SshSession}
use tty_gateway.Server.Conn.{
  authorized, opened, Conn, Env, await, call, note, recv, send, ask_authorize, ask_session_open,
}
use tty_gateway.Server.Signer.{open_for_auth}

-- What `negotiate` produces; the session is its address.
pub record Negotiated : Type 0 where
  pub session : ℕ
  pub entitlement : Entitlement
  pub account_token : Option Bytes

module _ {W Tx H C K P : Type 0} (env : Env W Tx H C K P) where
  abbrev pub Handler : Type 0 → Type 0
  Handler A = Action Text (Conn W Tx) A

  -- An error frame, and `Ok(None)`.
  unfoldable pub refuse : Text → Handler (Option Negotiated)
  refuse message = send env (error message) >> pure none

  -- The last two frames of a negotiation that succeeds.
  unfoldable pub greet : Negotiated → Bool → Handler (Option Negotiated)
  greet n resumed c =
      (do
        send env (
            welcome protocol_version (id_of c.manager.heap n.session) resumed
              (record { bytes = token_of c.manager.heap n.session }))
        send env (status live)
        pure (some n))
        c

  admit : Negotiated → Answer (Unit {0}) → Handler (Option Negotiated)
  unfolding refuse greet
  admit n (allowed _) c = greet n false c
  admit n (denied d) c =
      refuse (denied_text d)
        (record c { manager = remove c.manager (id_of c.manager.heap n.session) })

  -- `hook.session_open` of a session that was just created.
  unfoldable pub announce : Text → Negotiated → Handler (Option Negotiated)
  unfolding admit
  announce client_name n c =
      let id = decimal (id_of c.manager.heap n.session) in
      let (answer, c') = ask_session_open env n.account_token id client_name c in admit n answer c'

  -- `manager.create(ssh.spawn())`
  unfoldable pub create_session : SshSession H C → Conn W Tx → ℕ × Conn W Tx
  create_session ssh c =
      let (handle, c1) = call env _ (env.spawn ssh) c in
      let (id, c2) = call env _ env.new_session_id c1 in
      let (token, c3) = call env _ env.new_resume_token c2 in
      let (m, session) = create c3.manager id token handle in (session, record c3 { manager = m })

  opened_session :
      Text → Entitlement → Option Bytes → Result Text (SshSession H C) → Handler (Option Negotiated)
  unfolding announce create_session refuse
  opened_session client_name entitlement account_token (err e) c =
      refuse (codes "connect failed: " ++ e) c
  opened_session client_name entitlement account_token (ok ssh) c =
      let (session, c') = create_session ssh c in
      announce client_name
        (record { session = session; entitlement = entitlement; account_token = account_token }) c'

  open_frame : Text → Entitlement → Option Bytes → ClientFrame → Handler (Option Negotiated)
  unfolding opened_session
  open_frame client_name entitlement account_token (open_shell target auth cols rows) c =
      let (ssh, c') = open_for_auth env target auth cols rows c in
      opened_session client_name entitlement account_token ssh c'
  open_frame client_name entitlement account_token other c = refuse (codes "expected Open") c

  find_session : Text → Entitlement → Option Bytes → Option ℕ → Handler (Option Negotiated)
  unfolding open_frame greet
  find_session client_name entitlement account_token (some session) c =
      greet (record { session = session; entitlement = entitlement; account_token = account_token })
        true c
  find_session client_name entitlement account_token none c =
      (recv env >>= open_frame client_name entitlement account_token) c

  -- `resume.and_then(|token| manager.resume(&token.0))`
  resumed_session : Conn W Tx → Option ResumeToken → Option ℕ
  resumed_session c none = none
  resumed_session c (some token) = resume c.manager token.bytes

  entitled :
      Text → Option ResumeToken → Option Bytes → Answer Entitlement → Handler (Option Negotiated)
  unfolding find_session resumed_session refuse
  entitled client_name token account_token (denied d) c = refuse (denied_text d) c
  entitled client_name token account_token (allowed entitlement) c =
      find_session client_name entitlement account_token (resumed_session c token) c

  authorize : Text → Option ResumeToken → Option Bytes → Handler (Option Negotiated)
  unfolding entitled
  authorize client_name token account_token c =
      let (answer, c') = ask_authorize env client_name account_token c in
      entitled client_name token account_token answer c'

  hello_frame : ClientFrame → Handler (Option Negotiated)
  unfolding authorize refuse
  hello_frame (hello version client_name token account_token) c =
      if version == protocol_version
      then authorize client_name token account_token c
      else refuse
          (codes "protocol version mismatch: client "
            ++ (decimal version ++ (codes ", server " ++ decimal protocol_version)))
          c
  hello_frame other c = refuse (codes "expected Hello") c

  unfoldable pub negotiate : Handler (Option Negotiated)
  unfolding hello_frame
  negotiate = recv env >>= hello_frame
