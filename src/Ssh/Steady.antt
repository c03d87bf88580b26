-- ===== src/Ssh/Steady.antt =====
-- Logging in to a target does to the state of the world only what the calls of `russh`, and of the
-- signer, do to it.
use tty_gateway.Base.{ℕ, Bool, Option, none, Bytes, Text}
use tty_gateway.Base.Results.{Result, ok, err}
use tty_gateway.Base.Action.Keeps.{IsPreorder, Keeps, keeps_rules}
use tty_gateway.Ssh.Client.{
  SshTarget, Auth, password, private_key, HashAlg, Dialog, done, ask, Cell, Russh, RemoteSigner,
  check_server_key,
}
use tty_gateway.Ssh.Open.{
  connected, authenticate, delegated_login, connect, finish_open, open_with, auth_publickey_sign,
  answer_all, open_delegated,
}

-- Each call of `russh` keeps the relation.
pub record IsSteady {S H C K P : Type 0} (R : S → S → Type 0) (r : Russh S H C K P) : Type 0 where
  pub connects :
      (host : Text) (port : ℕ) (check : Cell → Text → Bool × Cell) (cell : Cell) (s : S)
      → R s (r.connect host port check cell s).1
  pub by_password : (h : H) (user secret : Text) → Keeps R (r.authenticate_password h user secret)
  pub by_key : (h : H) (user : Text) (key : K) → Keeps R (r.authenticate_publickey h user key)
  pub by_signer :
      (h : H) (user : Text) (key : P) (s : S) → R s (r.authenticate_publickey_with h user key s).1
  pub opens : (h : H) → Keeps R (r.channel_open_session h)
  pub ptys : (c : C) (term : Text) (cols rows : ℕ) → Keeps R (r.request_pty c term cols rows)
  pub shells : (c : C) → Keeps R (r.request_shell c)

module _ {S H C K P : Type 0} (R : S → S → Type 0) (pre : IsPreorder R) (r : Russh S H C K P)
    (steady : IsSteady R r) where
  connected-keeps :
      (text : Text) (s : S) (x : (Result Text H × Cell) × S) → R s x.1 → R s (connected r text x).1
  unfolding connected
  connected-keeps text s ((ok handle, cell), t) h = h
  connected-keeps text s ((err e, cell), t) h = h

  connect-Keeps : (target : SshTarget) → Keeps R (connect r target)
  unfolding connect
  connect-Keeps target = record {
    at = λ s.
        connected-keeps _ s _ (steady.connects target.host target.port check_server_key none s);
  }

  finish_open-Keeps :
      (h : H) (fp : Option Text) (cols rows : ℕ) → Keeps R (finish_open r h fp cols rows)
  unfolding finish_open
  finish_open-Keeps h fp cols rows =
      search (keeps_rules, pre, steady.opens, steady.ptys, steady.shells) depth 9

  authenticate-Keeps : (h : H) (user : Text) (auth : Auth) → Keeps R (authenticate r h user auth)
  unfolding authenticate
  authenticate-Keeps h user (password secret) = search (keeps_rules, pre, steady.by_password)
  authenticate-Keeps h user (private_key pem passphrase) = search (keeps_rules, pre, steady.by_key)

  -- Opening a session with a credential.
  pub open_with-Keeps :
      (target : SshTarget) (auth : Auth) (cols rows : ℕ)
      → Keeps R (open_with r target auth cols rows)
  open_with-Keeps target auth cols rows =
      unfold open_with in
      search (keeps_rules, pre, connect-Keeps, authenticate-Keeps, finish_open-Keeps)

  module _ (signer : RemoteSigner S)
      (signs : (key : Text) (alg : Option Text) (bytes : Bytes)
        → Keeps R (signer key alg bytes)) where
    sign-Keeps :
        (key : P) (alg : Option HashAlg) (bytes : Bytes)
        → Keeps R (auth_publickey_sign r signer key alg bytes)
    unfolding auth_publickey_sign
    sign-Keeps key alg bytes = search (keeps_rules, pre, signs)

    answer_all-keeps : (d : Dialog P) (s : S) → R s (answer_all r signer d s).1
    unfolding answer_all
    answer_all-keeps (done result) s = pre.same s
    answer_all-keeps (ask key alg bytes next) s =
        let t = (auth_publickey_sign r signer key alg bytes s).1 in
        pre.trans s t _ ((sign-Keeps key alg bytes).at s)
          (answer_all-keeps (next (auth_publickey_sign r signer key alg bytes s).0) t)

    login-Keeps : (h : H) (user : Text) (key : P) → Keeps R (delegated_login r h user key signer)
    unfolding delegated_login
    login-Keeps h user key = record {
      at = λ s.
          let (dialog, t) = r.authenticate_publickey_with h user key s in
          pre.trans s t _ (steady.by_signer h user key s) (answer_all-keeps dialog t);
    }

    -- Opening a session by delegated signing.
    pub open_delegated-Keeps :
        (target : SshTarget) (key : Text) (cols rows : ℕ)
        → Keeps R (open_delegated r target key signer cols rows)
    open_delegated-Keeps target key cols rows =
        unfold open_delegated in
        search (keeps_rules, pre, connect-Keeps, login-Keeps, finish_open-Keeps)
