-- ===== src/Ssh/Open.antt =====
-- `SshSession::open`, `open_delegated`, `connect` and `finish_open` of crates/gw-ssh/src/lib.rs.
use mathlib.Core.Option
use tty_gateway.Base.{ℕ, Bool, Option, none, ◌++◌, Bytes, Text, codes, decimal, if◌then◌else◌}
use tty_gateway.Base.Results.{Result, ok, err}
use tty_gateway.Base.Action.{Action, pure, raise, lift, ◌>>=◌, ◌>>◌, failing}
use tty_gateway.Ssh.Client.{
  SshTarget, Auth, password, private_key, HashAlg, hash_alg_name, SignerError, key, remote, Dialog,
  done, ask, Cell, Russh, check_server_key, SshSession, RemoteSigner,
}

-- `.context(text)`: the error is shown as the text.
abbrev pub context : {S A : Type 0} → Text → Action Text S A → Action Text S A
context text = failing (λ e. text)

module _ {S H C K P : Type 0} (r : Russh S H C K P) where
  -- The handle, with the fingerprint that the handler has left in its cell.
  unfoldable pub connected : Text → (Result Text H × Cell) × S → Result Text (H × Cell) × S
  connected text ((ok handle, cell), s) = (ok (handle, cell), s)
  connected text ((err e, cell), s) = (err text, s)

  unfoldable pub connect : SshTarget → Action Text S (H × Cell)
  unfolding connected check_server_key
  connect target s =
      connected (codes "ssh connect " ++ (target.host ++ (codes ":" ++ decimal target.port)))
        (r.connect target.host target.port check_server_key none s)

  unfoldable pub finish_open : H → Option Text → ℕ → ℕ → Action Text S (SshSession H C)
  finish_open handle server_fingerprint cols rows = do
    channel ← context (codes "open session") (r.channel_open_session handle)
    context (codes "request pty") (r.request_pty channel (codes "xterm-256color") cols rows)
    context (codes "request shell") (r.request_shell channel)
    pure (record { channel = channel; handle = handle; server_fingerprint = server_fingerprint })

  unfoldable pub authenticate : H → Text → Auth → Action Text S Bool
  authenticate handle user (password secret) =
      context (codes "password auth") (r.authenticate_password handle user secret)
  authenticate handle user (private_key pem passphrase) = do
    secret ← context (codes "decode private key") (lift (r.decode_secret_key pem passphrase))
    context (codes "publickey auth") (r.authenticate_publickey handle user secret)

  unfoldable pub open_with : SshTarget → Auth → ℕ → ℕ → Action Text S (SshSession H C)
  open_with target auth cols rows = do
    (handle, fingerprint) ← connect target
    logged_in ← authenticate handle target.user auth
    if logged_in
        then finish_open handle fingerprint cols rows
        else raise (codes "authentication failed for " ++ target.user)

  -- `DelegatedSigner::auth_publickey_sign`
  unfoldable pub auth_publickey_sign :
      RemoteSigner S → P → Option HashAlg → Bytes → Action SignerError S Bytes
  auth_publickey_sign signer public_key hash_alg to_sign = do
    openssh ← failing key (lift (r.to_openssh public_key))
    failing remote (signer openssh (Option.map hash_alg_name hash_alg) to_sign)

  -- The dialog with the target, each question answered by the signer.
  unfoldable pub answer_all : RemoteSigner S → Dialog P → Action Text S Bool
  answer_all signer (done result) s = (result, s)
  answer_all signer (ask public_key hash_alg to_sign next) s =
      let (signature, s') = auth_publickey_sign signer public_key hash_alg to_sign s in
      answer_all signer (next signature) s'

  unfoldable pub delegated_login : H → Text → P → RemoteSigner S → Action Text S Bool
  delegated_login handle user public_key signer s =
      let (dialog, s') = r.authenticate_publickey_with handle user public_key s in
      answer_all signer dialog s'

  unfoldable pub open_delegated :
      SshTarget → Text → RemoteSigner S → ℕ → ℕ → Action Text S (SshSession H C)
  open_delegated target public_key_openssh signer cols rows = do
    (handle, fingerprint) ← connect target
    public_key ←
        context (codes "parse delegated public key") (lift (r.from_openssh public_key_openssh))
    logged_in ←
        failing (λ e. codes "delegated auth: " ++ e)
          (delegated_login handle target.user public_key signer)
    if logged_in
        then finish_open handle fingerprint cols rows
        else raise (codes "delegated authentication failed for " ++ target.user)
