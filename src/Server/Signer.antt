-- ===== src/Server/Signer.antt =====
-- `ControlSigner` and `open_for_auth` of crates/gw-server/src/handler.rs.
pub mod Matching
use tty_gateway.Base.{
  ℕ, ◌+◌, ◌%◌, ◌^◌, Bool, Option, none, some, List, [], ◌∷◌, ◌++◌, Bytes, Text, codes,
  if◌then◌else◌, ◌==◌,
}
use tty_gateway.Base.Results.{Result, ok, err}
use tty_gateway.Base.Action.{Action, pure, raise, lift, continue, ◌>>=◌, ◌>>◌}
use tty_gateway.Base.Utf8.{from_utf8}
use tty_gateway.Proto.Frame.{
  TargetSpec, AuthIntent, delegated_key, password, private_key, gateway_key, ClientFrame,
  sign_response, ping, sign_request,
}
use tty_gateway.Ssh.Client.{SshTarget, Auth, SshSession, RemoteSigner, Russh}
use tty_gateway.Ssh.Open.{open_with, open_delegated}
use tty_gateway.Server.Conn.{dialed, Conn, Env, await, note, send}

-- `russh` as it is called from a larger state.
abbrev pub lift_russh :
    {S T H C K P : Type 0}
    → ((A : Type 0) → (S → A × S) → T → A × T)
    → Russh S H C K P
    → Russh T H C K P
lift_russh {S} {T} {H} {C} up r = record {
  connect =
      λ host port check cell. up (Result Text H × Option Text) (r.connect host port check cell);
  authenticate_password =
      λ h user secret. up (Result Text Bool) (r.authenticate_password h user secret);
  decode_secret_key = r.decode_secret_key;
  authenticate_publickey =
      λ h user key. up (Result Text Bool) (r.authenticate_publickey h user key);
  from_openssh = r.from_openssh;
  to_openssh = r.to_openssh;
  authenticate_publickey_with = λ h user key. up _ (r.authenticate_publickey_with h user key);
  channel_open_session = λ h. up (Result Text C) (r.channel_open_session h);
  request_pty = λ c term cols rows. up (Result Text (Unit {0})) (r.request_pty c term cols rows);
  request_shell = λ c. up (Result Text (Unit {0})) (r.request_shell c);
}

module _ {W Tx H C K P : Type 0} (env : Env W Tx H C K P) where
  -- A connection with the `next_id` of its signer.
  pub record Signing : Type 0 where
    pub conn : Conn W Tx
    pub next_id : ℕ

  -- The loop of `sign`, over the frames that the client still sends: the answer, and what is left.
  unfoldable pub await_signature : ℕ → List ClientFrame → Result Text Bytes × List ClientFrame
  await_signature id [] = (err env.gone, [])
  await_signature id (sign_response rid signature ∷ frames) =
      let rest = await_signature id frames in if rid == id then (ok signature, frames) else rest
  await_signature id (ping ∷ frames) = await_signature id frames
  await_signature id (other ∷ frames) =
      (err (codes "unexpected frame during signing: " ++ env.debug other), frames)

  -- One wait stands for the waits of all rounds: what the others do in it is arbitrary.
  unfoldable pub receive_signature : ℕ → Action Text (Conn W Tx) Bytes
  unfolding await_signature
  receive_signature id c =
      let c' = (await env (Unit {0}) (λ w. (tt, env.wait w)) c).1 in
      let (answer, frames) = await_signature id c'.inbox in (answer, record c' { inbox = frames })

  -- `ControlSigner::sign`
  unfoldable pub sign : RemoteSigner Signing
  unfolding receive_signature
  sign public_key_openssh algorithm to_sign s =
      let ask : Action Text (Conn W Tx) Bytes =
        send env (sign_request s.next_id public_key_openssh to_sign)
        >> receive_signature s.next_id in
      let (answer, c) = ask s.conn in
      (answer, record { conn = c; next_id = (s.next_id + 1) % 2 ^ 64 })

  -- `russh` with what the others do while it waits, on a connection and on a signer.
  abbrev pub on_conn : Russh (Conn W Tx) H C K P
  on_conn = lift_russh (await env) env.russh

  abbrev pub in_signing : (A : Type 0) → (W → A × W) → Signing → A × Signing
  in_signing A op s = let (a, c) = await env A op s.conn in (a, record s { conn = c })

  abbrev pub on_signing : Russh Signing H C K P
  on_signing = lift_russh in_signing env.russh

  abbrev pub ssh_target : TargetSpec → SshTarget
  ssh_target target = record { host = target.host; port = target.port; user = target.user }

  unfoldable pub delegated :
      TargetSpec → Result (Unit {0}) Text → ℕ → ℕ → Action Text (Conn W Tx) (SshSession H C)
  delegated target (err _) cols rows c = raise (codes "delegated public key is not OpenSSH text") c
  delegated target (ok openssh) cols rows c =
      let (r, s) =
        open_delegated on_signing (ssh_target target) openssh sign cols rows
          (record { conn = note (dialed (ssh_target target)) c; next_id = 1 }) in
      (r, s.conn)

  unfoldable pub open_for_auth :
      TargetSpec → AuthIntent → ℕ → ℕ → Action Text (Conn W Tx) (SshSession H C)
  unfolding delegated
  open_for_auth target (password secret) cols rows c =
      open_with on_conn (ssh_target target) (Auth.password secret) cols rows
        (note (dialed (ssh_target target)) c)
  open_for_auth target (private_key pem passphrase) cols rows c =
      open_with on_conn (ssh_target target) (Auth.private_key pem passphrase) cols rows
        (note (dialed (ssh_target target)) c)
  open_for_auth target (delegated_key public_key) cols rows c =
      delegated target (from_utf8 public_key) cols rows c
  open_for_auth target (gateway_key key_id) cols rows c =
      raise (codes "gateway-stored keys not yet implemented") c
