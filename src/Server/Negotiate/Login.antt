-- ===== src/Server/Negotiate/Login.antt =====
-- What logging in to a target leaves in the log of a connection.
use tty_gateway.Base.{
  ℕ, ◌≡◌, ◌∙◌, refl, sym, ap, Option, List, [], ◌∷◌, ◌++◌, Bytes, Text, append-nil, append_assoc,
  All, All-append, arith,
}
use tty_gateway.Base.Results.{Result, ok, err}
use tty_gateway.Base.Utf8.{from_utf8}
use tty_gateway.Base.Action.{◌>>=◌}
use tty_gateway.Base.Action.Keeps.{IsPreorder, Keeps}
use tty_gateway.Proto.Frame.{
  TargetSpec, AuthIntent, delegated_key, password, private_key, gateway_key, sign_request,
}
use tty_gateway.Ssh.Client.{SshTarget, Auth}
use tty_gateway.Ssh.Open.{open_with}
use tty_gateway.Ssh.Steady.{IsSteady, open_with-Keeps, open_delegated-Keeps}
use tty_gateway.Server.Conn.{Event, sent, dialed, Conn, Env, note, send}
use tty_gateway.Server.Signer.{
  Signing, sign, receive_signature, on_conn, on_signing, ssh_target, delegated, open_for_auth,
}

-- Dialing a target, and asking the client for signatures.
pub data IsLogin : Event → Type 0 where
  dials : (target : SshTarget) → IsLogin (dialed target)
  asks : (id : ℕ) (key bytes : Bytes) → IsLogin (sent (sign_request id key bytes))

module _ {W Tx : Type 0} where
  -- Only such events have been added to the log.
  pub record LogsIn (c d : Conn W Tx) : Type 0 where
    pub login : List Event
    pub logged : d.log ≡ c.log ++ login
    pub only : All IsLogin login

  pub LogsIn-IsPreorder : IsPreorder LogsIn
  LogsIn-IsPreorder = record {
    same = λ c. record { login = []; logged = sym (append-nil c.log); only = tt };
    trans = λ c d e p q. record {
      login = p.login ++ q.login;
      logged = q.logged ∙ ap (λ l. l ++ q.login) p.logged ∙ append_assoc c.log p.login q.login;
      only = All-append IsLogin p.login q.login p.only q.only;
    };
  }

module _ {W Tx H C K P : Type 0} (env : Env W Tx H C K P) where
  silent : (c d : Conn W Tx) → d.log ≡ c.log → LogsIn c d
  silent c d e = record { login = []; logged = e ∙ sym (append-nil c.log); only = tt }

  on_conn-IsSteady : IsSteady LogsIn (on_conn env)
  on_conn-IsSteady = record {
    connects = λ host port check cell c. silent c _ refl;
    by_password = λ h user secret. record { at = λ c. silent c _ refl };
    by_key = λ h user key. record { at = λ c. silent c _ refl };
    by_signer = λ h user key c. silent c _ refl;
    opens = λ h. record { at = λ c. silent c _ refl };
    ptys = λ ch term cols rows. record { at = λ c. silent c _ refl };
    shells = λ ch. record { at = λ c. silent c _ refl };
  }

  abbrev SignsIn : Signing env → Signing env → Type 0
  SignsIn s t = LogsIn s.conn t.conn

  SignsIn-IsPreorder : IsPreorder SignsIn
  SignsIn-IsPreorder = record {
    same = λ s. LogsIn-IsPreorder.same s.conn;
    trans = λ s t u. LogsIn-IsPreorder.trans s.conn t.conn u.conn;
  }

  on_signing-IsSteady : IsSteady SignsIn (on_signing env)
  on_signing-IsSteady = record {
    connects = λ host port check cell s. silent s.conn _ refl;
    by_password = λ h user secret. record { at = λ s. silent s.conn _ refl };
    by_key = λ h user key. record { at = λ s. silent s.conn _ refl };
    by_signer = λ h user key s. silent s.conn _ refl;
    opens = λ h. record { at = λ s. silent s.conn _ refl };
    ptys = λ ch term cols rows. record { at = λ s. silent s.conn _ refl };
    shells = λ ch. record { at = λ s. silent s.conn _ refl };
  }

  sign-Keeps :
      (key : Text) (alg : Option Text) (bytes : Bytes) → Keeps SignsIn (sign env key alg bytes)
  unfolding sign send receive_signature ◌>>=◌
  sign-Keeps key alg bytes = record {
    at = λ s. record {
      login = sent (sign_request s.next_id key bytes) ∷ [];
      logged = ground arith;
      only = (asks s.next_id key bytes, tt);
    };
  }

  dial-LogsIn : (target : SshTarget) (c : Conn W Tx) → LogsIn c (note (dialed target) c)
  dial-LogsIn target c = record {
    login = dialed target ∷ [];
    logged = refl;
    only = (dials target, tt);
  }

  delegated-LogsIn :
      (target : TargetSpec) (key : Result (Unit {0}) Text) (cols rows : ℕ) (c : Conn W Tx)
      → LogsIn c (delegated env target key cols rows c).1
  unfolding delegated
  delegated-LogsIn target (err _) cols rows c = unfold ◌>>=◌ in silent c _ refl
  delegated-LogsIn target (ok openssh) cols rows c =
      let c' = note (dialed (ssh_target env target)) c in
      LogsIn-IsPreorder.trans c c' _ (dial-LogsIn (ssh_target env target) c) (
        (open_delegated-Keeps SignsIn SignsIn-IsPreorder (on_signing env) on_signing-IsSteady
            (sign env) sign-Keeps (ssh_target env target) openssh cols rows).at
          (record { conn = c'; next_id = 1 }))

  open_with-LogsIn :
      (target : TargetSpec) (auth : Auth) (cols rows : ℕ) (c : Conn W Tx)
      → LogsIn c
          (open_with
            (on_conn env)
            (ssh_target env target)
            auth
            cols
            rows
            (note (dialed (ssh_target env target)) c)).1
  open_with-LogsIn target auth cols rows c =
      LogsIn-IsPreorder.trans c (note (dialed (ssh_target env target)) c) _
        (dial-LogsIn (ssh_target env target) c)
        ((open_with-Keeps LogsIn LogsIn-IsPreorder (on_conn env) on_conn-IsSteady
            (ssh_target env target) auth cols rows).at
          (note (dialed (ssh_target env target)) c))

  -- Whatever the intent and the outcome, `open_for_auth` adds dials and signature requests alone.
  pub open_for_auth-LogsIn :
      (target : TargetSpec) (auth : AuthIntent) (cols rows : ℕ) (c : Conn W Tx)
      → LogsIn c (open_for_auth env target auth cols rows c).1
  unfolding open_for_auth
  open_for_auth-LogsIn target (password secret) cols rows c =
      open_with-LogsIn target (Auth.password secret) cols rows c
  open_for_auth-LogsIn target (private_key pem passphrase) cols rows c =
      open_with-LogsIn target (Auth.private_key pem passphrase) cols rows c
  open_for_auth-LogsIn target (delegated_key key) cols rows c =
      delegated-LogsIn target (from_utf8 key) cols rows c
  open_for_auth-LogsIn target (gateway_key id) cols rows c = unfold ◌>>=◌ in silent c _ refl
