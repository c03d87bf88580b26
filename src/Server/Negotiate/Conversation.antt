-- ===== src/Server/Negotiate/Conversation.antt =====
-- The conversations that a negotiation may have with the client, the hook and the target.
use tty_gateway.Base.{
  ℕ, Bool, true, false, Option, none, some, List, [], ◌∷◌, ◌++◌, Bytes, Text, All,
}
use tty_gateway.Proto.Frame.{protocol_version, welcome, status, live, error}
use tty_gateway.Server.Conn.{Event, sent, authorized, opened}
use tty_gateway.Server.Negotiate.{Negotiated}
use tty_gateway.Server.Negotiate.Login.{IsLogin}

-- The last two frames of a session that goes live.
abbrev pub greeting : ℕ → Bool → Bytes → List Event
greeting id resumed token =
    sent (welcome protocol_version id resumed (record { bytes = token })) ∷ sent (status live) ∷ []

-- What a negotiation may have done when it produces a result, oldest event first.
pub data Conversation : Option Negotiated → List Event → Type 0 where
  -- no `Hello` of this version: the hook was not asked
  rejected : (m : Text) → Conversation none (sent (error m) ∷ [])
  -- denied, no `Open`, or no login: the session does not exist
  failed :
      (name : Text) (account : Option Bytes) (login : List Event) (m : Text)
      → All IsLogin login
      → Conversation none (authorized name account ∷ (login ++ (sent (error m) ∷ [])))
  over_quota :
      (name : Text) (account : Option Bytes) (login : List Event) (id : Text) (m : Text)
      → All IsLogin login
      → Conversation none
          (authorized name account ∷ (login ++ (opened account id name ∷ sent (error m) ∷ [])))
  -- The session is for the account that was authorized, here and below.
  reattached :
      (name : Text) (n : Negotiated) (id : ℕ) (token : Bytes)
      → Conversation (some n) (authorized name n.account_token ∷ greeting id true token)
  established :
      (name : Text) (n : Negotiated) (asked : Text) (id : ℕ) (token : Bytes) (login : List Event)
      → All IsLogin login
      → Conversation (some n) (
          authorized name n.account_token
          ∷ (login ++ (opened n.account_token asked name ∷ greeting id false token)))
