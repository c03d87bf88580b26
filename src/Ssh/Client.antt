-- ===== src/Ssh/Client.antt =====
-- What crates/gw-ssh/src/lib.rs says to and hears from `russh`. The crate is a parameter: its types
-- (a connection's handle `H`, a channel `C`, a secret key `K`, a public key `P`) and its calls, each
-- of which may change the state `S` of the world. An error is the text that `Display` shows.
use tty_gateway.Base.{ℕ, Bool, true, Option, some, Bytes, Text, codes}
use tty_gateway.Base.Results.{Result}
use tty_gateway.Base.Action.{Action}

pub record SshTarget : Type 0 where
  pub host : Text
  pub port : ℕ
  pub user : Text

pub data Auth : Type 0 where
  password : Text → Auth
  -- pem, passphrase
  private_key : Text → Option Text → Auth

pub data SshInput : Type 0 where
  bytes : Bytes → SshInput
  -- cols, rows
  resize : ℕ → ℕ → SshInput

pub data HashAlg : Type 0 where
  sha256 sha512 unknown : HashAlg

unfoldable pub hash_alg_name : HashAlg → Text
hash_alg_name sha256 = codes "rsa-sha2-256"
hash_alg_name sha512 = codes "rsa-sha2-512"
hash_alg_name unknown = codes "rsa-sha2-512"

pub data SignerError : Type 0 where
  send : SignerError
  key remote : Text → SignerError

-- `authenticate_publickey_with` as a dialog: it asks the signer any number of times, and goes on by
-- the answers, till it says whether the login succeeded.
pub data Dialog (P : Type 0) : Type 0 where
  done : Result Text Bool → Dialog P
  ask : P → Option HashAlg → Bytes → (Result SignerError Bytes → Dialog P) → Dialog P

-- The handler `check_server_key` keeps the last fingerprint in a cell and says whether to go on.
abbrev pub Cell : Type 0
Cell = Option Text

pub record Russh (S H C K P : Type 0) : Type 0 where
  pub connect : Text → ℕ → (Cell → Text → Bool × Cell) → Cell → S → (Result Text H × Cell) × S
  pub authenticate_password : H → Text → Text → Action Text S Bool
  pub decode_secret_key : Text → Option Text → Result Text K
  pub authenticate_publickey : H → Text → K → Action Text S Bool
  pub from_openssh : Text → Result Text P
  pub to_openssh : P → Result Text Text
  pub authenticate_publickey_with : H → Text → P → S → Dialog P × S
  pub channel_open_session : H → Action Text S C
  pub request_pty : C → Text → ℕ → ℕ → Action Text S (Unit {0})
  pub request_shell : C → Action Text S (Unit {0})

-- `ClientHandler::check_server_key`: every host key is accepted, and its fingerprint is recorded.
unfoldable pub check_server_key : Cell → Text → Bool × Cell
check_server_key cell fingerprint = (true, some fingerprint)

-- `SshSession`
pub record SshSession (H C : Type 0) : Type 0 where
  pub channel : C
  pub handle : H
  pub server_fingerprint : Option Text

-- A `RemoteSigner`: public key line, algorithm, data; errors as their texts.
abbrev pub RemoteSigner : Type 0 → Type 0
RemoteSigner S = Text → Option Text → Bytes → Action Text S Bytes
