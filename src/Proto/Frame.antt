-- ===== src/Proto/Frame.antt =====
-- crates/gw-proto/src/frame.rs: the frames. Integers are numbers within their width (`u16`, `u64`,
-- `u128`), and a `String` is its UTF-8 bytes.
use tty_gateway.Base.{ℕ, Bool, Option, Bytes, Text}

abbrev pub protocol_version : ℕ
protocol_version = 1

abbrev pub SessionId : Type 0
SessionId = ℕ

pub record ResumeToken : Type 0 where
  pub bytes : Bytes

pub record TargetSpec : Type 0 where
  pub host : Text
  pub port : ℕ
  pub user : Text

pub data AuthIntent : Type 0 where
  -- public_key
  delegated_key : Bytes → AuthIntent
  -- secret
  password : Text → AuthIntent
  -- pem, passphrase
  private_key : Text → Option Text → AuthIntent
  -- key_id
  gateway_key : Text → AuthIntent

pub data ClientFrame : Type 0 where
  -- version, client_name, resume, account_token
  hello : ℕ → Text → Option ResumeToken → Option Bytes → ClientFrame
  -- target, auth, cols, rows
  open_shell : TargetSpec → AuthIntent → ℕ → ℕ → ClientFrame
  input : Bytes → ClientFrame
  -- cols, rows
  resize : ℕ → ℕ → ClientFrame
  -- id, signature
  sign_response : ℕ → Bytes → ClientFrame
  ping : ClientFrame
  close : ClientFrame

pub data SessionStatus : Type 0 where
  connecting authenticating live detached closed : SessionStatus

pub data ServerFrame : Type 0 where
  -- version, session_id, resumed, resume
  welcome : ℕ → SessionId → Bool → ResumeToken → ServerFrame
  output : Bytes → ServerFrame
  -- id, public_key, data
  sign_request : ℕ → Bytes → Bytes → ServerFrame
  status : SessionStatus → ServerFrame
  pong : ServerFrame
  -- message
  error : Text → ServerFrame
  ended : ServerFrame
